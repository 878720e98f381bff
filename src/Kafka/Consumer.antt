-- ===== src/Kafka/Consumer.antt =====
-- The loop of `KafkaEventConsumer._run`: an exception of the handler is logged and the loop goes on.
-- A handler that raises has not committed, so it leaves the state as it was. A message comes with
-- what its handling takes from outside, such as the time.
use sc_tpcrs.Prelude.{◌≡◌, refl, List, [], ◌∷◌, ◌++◌, Result, ok, err}

module _ {M S : Type 0} (handler : M → S → Result S) where
  abbrev after : Result S → S → S
  after (ok s') s = s'
  after (err e) s = s

  unfoldable pub consume : List M → S → S
  consume [] s = s
  consume (m ∷ ms) s = consume ms (after (handler m s) s)

  pub consume-append : (ms ns : List M) (s : S) → consume (ms ++ ns) s ≡ consume ns (consume ms s)
  unfolding consume
  consume-append [] ns s = refl
  consume-append (m ∷ ms) ns s = consume-append ms ns (after (handler m s) s)

  module _ (P : S → Type 0) (keeps : (m : M) (s s' : S) → P s → handler m s ≡ ok s' → P s') where
    after-IsInvariant : (m : M) (s : S) (r : Result S) → P s → handler m s ≡ r → P (after r s)
    after-IsInvariant m s (ok s') h q = keeps m s s' h q
    after-IsInvariant m s (err x) h q = h

    -- What every successful call of the handler keeps, the loop keeps.
    pub consume-IsInvariant : (ms : List M) (s : S) → P s → P (consume ms s)
    unfolding consume
    consume-IsInvariant [] s h = h
    consume-IsInvariant (m ∷ ms) s h =
        consume-IsInvariant ms (after (handler m s) s) (after-IsInvariant m s (handler m s) h refl)
