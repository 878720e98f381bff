-- ===== src/Incident/Lifecycle/Laws.antt =====
-- The lifecycle of lifecycle.py as a graph, and the order of severities behind its thresholds and SLAs.
use sc_tpcrs.Prelude.{
  ℕ, ◌≤◌, String, ◌≡◌, ap, All, one_of-All, ◌⊎◌, inl, inr, Bool, true, false, ◌&&◌, not, List, [],
  ◌∷◌, ◌==◌, arith, one_of,
}
use sc_tpcrs.Incident.Lifecycle.{
  Settings, statuses, transitions, can_transition, severity_rank, sla_window_hours, sla_due_at,
}

abbrev active : List String
active = "open" ∷ "investigating" ∷ "contained" ∷ "resolved" ∷ []

transitions-active : (s : String) → (one_of s active ≡ true) ⊎ (transitions s ≡ [])
unfolding transitions
transitions-active s = ground arith

-- A Boolean test that each move of the table passes is passed by every legal move.
can_transition-passes :
    (test : String → String → Bool)
    → All (λ a. All (λ t. test a t ≡ true) (transitions a)) active
    → (current target : String) → can_transition current target ≡ true
    → test current target ≡ true
unfolding can_transition
can_transition-passes test table current target h = elim (transitions-active current) [
  | inl known ↦
      one_of-All (λ t. test current t ≡ true) target (transitions current)
        (one_of-All (λ a. All (λ t. test a t ≡ true) (transitions a)) current active table known) h
  | inr none ↦ cc (ap (one_of target) none, h)
]

abbrev is_move : String → String → Bool
is_move a t =
    one_of a statuses
    && (one_of t statuses && (not (a == "closed") && (not (t == "open") && not (a == t))))

move_table : All (λ a. All (λ t. is_move a t ≡ true) (transitions a)) active
unfolding transitions
move_table = ground arith

-- A legal move goes from a status other than closed to another known status, and never back to
-- open.
pub can_transition_sound :
    (current target : String)
    → can_transition current target ≡ true
    → (one_of current statuses ≡ true)
      × (one_of target statuses ≡ true)
      × ((current == "closed") ≡ false)
      × ((target == "open") ≡ false)
      × ((current == target) ≡ false)
can_transition_sound current target h =
    ground (arith, can_transition-passes is_move move_table current target h)

-- The statuses that an incident can be closed from are all but `closed`.
pub can_transition-closed : (s : String) → can_transition s "closed" ≡ one_of s active
unfolding can_transition
can_transition-closed s = ground arith

-- The windows are shorter for the worse severity.
pub record AreOrdered (settings : Settings) : Type 0 where
  pub critical_high : settings.sla_hours_critical ≤ settings.sla_hours_high
  pub high_medium : settings.sla_hours_high ≤ settings.sla_hours_medium
  pub medium_low : settings.sla_hours_medium ≤ settings.sla_hours_low

abbrev pub severities : List String
severities = "Low" ∷ "Medium" ∷ "High" ∷ "Critical" ∷ []

abbrev Shorter : Settings → String → String → Type 0
Shorter settings a b =
    severity_rank a ≤ severity_rank b → sla_window_hours settings b ≤ sla_window_hours settings a

window_table :
    (settings : Settings)
    → AreOrdered settings
    → All (λ a. All (Shorter settings a) severities) severities
unfolding severity_rank sla_window_hours
window_table settings h = omega arith

-- Of two incidents opened at one time with known severities, the worse is due no later, if the
-- settings give it the shorter window.
pub sla_due_at_antitone :
    (settings : Settings) (opened_at : ℕ) (a b : String)
    → AreOrdered settings
    → one_of a severities ≡ true
    → one_of b severities ≡ true
    → severity_rank a ≤ severity_rank b
    → sla_due_at settings opened_at b ≤ sla_due_at settings opened_at a
unfolding sla_due_at
sla_due_at_antitone settings opened_at a b h ka kb le =
    let shorter : Shorter settings a b =
      one_of-All (Shorter settings a) b severities
        (one_of-All (λ s. All (Shorter settings s) severities) a severities
          (window_table settings h) ka)
        kb in
    omega (arith, shorter le)
