-- ===== src/Dashboard/Health/Alerting.antt =====
-- When the dashboard says that a lost heartbeat is still open.
use mathlib.Core.Path.{subst}
use crypto_ai_trader.Base.{
  ◌≤◌, ◌<◌, ◌≡◌, ◌≢◌, ◌⊎◌, ◌↔◌, inl, inr, refl, sym, ap, ◌∙◌, arith, List, [], ◌∷◌, Option, none,
  some, Bool, true, false, Bool-cases, Option-cases, ltb, str_eq_iff,
}
use crypto_ai_trader.Strategies.Base.{Time}
use crypto_ai_trader.Dashboard.Events.{
  EventType, type_eq, cycle_started, cycle_finished, cycle_error, supervisor_heartbeat,
  supervisor_component_error, heartbeat_lost, heartbeat_recovered, component_restart_attempted,
  component_restart_succeeded, component_restart_exhausted, other, EventRow,
}
use crypto_ai_trader.Dashboard.Health.{Marks, newer, mark, scan, is_open, is_alerting}

-- An event of a type with a time is among the rows.
abbrev pub Recorded : EventType → Time → List EventRow → Type 0
Recorded kind t [] = ⊥
Recorded kind t (row ∷ rows) =
    ((row.event_type ≡ kind) × (row.created_at ≡ some t)) ⊎ Recorded kind t rows

-- A heartbeat was lost later than any recovery.
pub OpenLoss : List EventRow → Type 0
OpenLoss rows =
    (t : Time) × Recorded heartbeat_lost t rows
    × ((s : Time) → Recorded heartbeat_recovered s rows → s < t)

-- What the mark `after` says of the type, when `before` was the mark in front of the rows.
record IsLatest (kind : EventType) (rows : List EventRow) (before after : Option Time)
    : Type 0 where
  found : (t : Time) → after ≡ some t → (before ≡ some t) ⊎ Recorded kind t rows
  covers : (s : Time) → Recorded kind s rows → (t : Time) × (after ≡ some t) × (s ≤ t)
  keeps : (s : Time) → before ≡ some s → (t : Time) × (after ≡ some t) × (s ≤ t)

type_eq_iff : (a b : EventType) → (type_eq a b ≡ true) ↔ (a ≡ b)
unfolding type_eq
type_eq_iff cycle_started b = ground arith
type_eq_iff cycle_finished b = ground arith
type_eq_iff cycle_error b = ground arith
type_eq_iff supervisor_heartbeat b = ground arith
type_eq_iff supervisor_component_error b = ground arith
type_eq_iff heartbeat_lost b = ground arith
type_eq_iff heartbeat_recovered b = ground arith
type_eq_iff component_restart_attempted b = ground arith
type_eq_iff component_restart_succeeded b = ground arith
type_eq_iff component_restart_exhausted b = ground arith
type_eq_iff (other x) (other y) =
    (λ h. ap other ((str_eq_iff x y).0 h), λ h. (str_eq_iff x y).1 (ground arith))
type_eq_iff (other x) b = ground arith

-- The mark of one type behind a row, by whether the row has the type.
abbrev bump : Bool → Option Time → Option Time → Option Time
bump true (some t) before = newer t before
bump true none before = before
bump false created before = before

mark-lost :
    (kind : EventType) (created : Option Time) (m : Marks)
    → (mark kind created m).lost ≡ bump (type_eq kind heartbeat_lost) created m.lost
unfolding type_eq
mark-lost heartbeat_lost none m = refl
mark-lost heartbeat_lost (some t) m = refl
mark-lost heartbeat_recovered none m = refl
mark-lost heartbeat_recovered (some t) m = refl
mark-lost _ created m = refl

mark-recovered :
    (kind : EventType) (created : Option Time) (m : Marks)
    → (mark kind created m).recovered ≡ bump (type_eq kind heartbeat_recovered) created m.recovered
unfolding type_eq
mark-recovered heartbeat_lost none m = refl
mark-recovered heartbeat_lost (some t) m = refl
mark-recovered heartbeat_recovered none m = refl
mark-recovered heartbeat_recovered (some t) m = refl
mark-recovered _ created m = refl

newer-bounds :
    (t : Time) (before : Option Time)
    → (u : Time) × (newer t before ≡ some u)
      × (t ≤ u)
      × ((before ≡ some u) ⊎ (u ≡ t))
      × ((s : Time) → before ≡ some s → s ≤ u)
unfolding newer
newer-bounds t none = (t, refl, omega arith, inr refl, λ s e. cc)
newer-bounds t (some latest) = elim (Bool-cases (ltb latest t)) [
  | inl later ↦ (t, rw later refl, omega arith, inr refl, λ s e. ground arith)
  | inr earlier ↦ (latest, rw earlier refl, ground arith, inl refl, λ s e. ground arith)
]

-- A row that leaves the mark as it is.
IsLatest-skip :
    (kind : EventType) (row : EventRow) (rows : List EventRow) (before after : Option Time)
    → ((t : Time) → row.event_type ≡ kind → row.created_at ≢ some t)
    → IsLatest kind rows before after
    → IsLatest kind (row ∷ rows) before after
IsLatest-skip kind row rows before after apart latest = record {
  found = λ t e. elim (latest.found t e) [ inl early ↦ inl early | inr later ↦ inr (inr later) ];
  covers = λ s recorded. elim recorded [
    | inl (same, created) ↦ absurd (apart s same created)
    | inr later ↦ latest.covers s later
  ];
  keeps = latest.keeps;
}

-- A row that may raise the mark.
IsLatest-raise :
    (kind : EventType) (row : EventRow) (rows : List EventRow) (t : Time)
    (before after : Option Time)
    → row.event_type ≡ kind
    → row.created_at ≡ some t
    → IsLatest kind rows (newer t before) after
    → IsLatest kind (row ∷ rows) before after
IsLatest-raise kind row rows t before after same created latest =
    let (u, e, above, origin, over) = newer-bounds t before in
    let (v, is_v, higher) = latest.keeps u e in
    record {
      found = λ w is_w. elim (latest.found w is_w) [
        | inr later ↦ inr (inr later)
        | inl early ↦ elim origin [
          | inl old ↦ inl (old ∙ sym e ∙ early)
          | inr fresh ↦ inr (inl (same, created ∙ ap some (sym fresh) ∙ sym e ∙ early))
        ]
      ];
      covers = λ s recorded. elim recorded [
        | inl (_, at_s) ↦ (v, is_v, ground (arith))
        | inr later ↦ latest.covers s later
      ];
      keeps = λ s old. (v, is_v, omega (arith, over s old));
    }

IsLatest-bump :
    (kind : EventType) (row : EventRow) (rows : List EventRow) (before after : Option Time)
    → IsLatest kind rows (bump (type_eq row.event_type kind) row.created_at before) after
    → IsLatest kind (row ∷ rows) before after
IsLatest-bump kind row rows before after latest =
    let matches = type_eq_iff row.event_type kind in
    elim (Bool-cases (type_eq row.event_type kind)) [
      | inr apart ↦
          IsLatest-skip kind row rows before after (λ t same. cc (matches.1 same))
            (simp apart at latest)
      | inl same ↦ elim (Option-cases row.created_at) [
        | inl untimed ↦
            IsLatest-skip kind row rows before after (λ t e f. cc) (simp (same, untimed) at latest)
        | inr (t, created) ↦
            IsLatest-raise kind row rows t before after (matches.0 same) created
              (simp (same, created) at latest)
      ]
    ]

scan-lost :
    (rows : List EventRow) (m : Marks) → IsLatest heartbeat_lost rows m.lost (scan rows m).lost
unfolding scan
scan-lost [] m = record {
  found = λ t e. inl e;
  covers = λ s recorded. absurd recorded;
  keeps = λ s e. (s, e, omega arith);
}
scan-lost (row ∷ rows) m = IsLatest-bump heartbeat_lost row rows m.lost (scan (row ∷ rows) m).lost (
    subst (λ mid. IsLatest heartbeat_lost rows mid (scan (row ∷ rows) m).lost)
      (mark-lost row.event_type row.created_at m)
      (scan-lost rows (mark row.event_type row.created_at m)))

scan-recovered :
    (rows : List EventRow) (m : Marks)
    → IsLatest heartbeat_recovered rows m.recovered (scan rows m).recovered
unfolding scan
scan-recovered [] m = record {
  found = λ t e. inl e;
  covers = λ s recorded. absurd recorded;
  keeps = λ s e. (s, e, omega arith);
}
scan-recovered (row ∷ rows) m =
    IsLatest-bump heartbeat_recovered row rows m.recovered (scan (row ∷ rows) m).recovered (
      subst (λ mid. IsLatest heartbeat_recovered rows mid (scan (row ∷ rows) m).recovered)
        (mark-recovered row.event_type row.created_at m)
        (scan-recovered rows (mark row.event_type row.created_at m)))

recorded_at :
    (kind : EventType) (rows : List EventRow) (t : Time)
    → IsLatest kind rows none (some t)
    → Recorded kind t rows
recorded_at kind rows t latest = elim (latest.found t refl) [
  | inl before ↦ cc
  | inr recorded ↦ recorded
]

open_iff :
    (rows : List EventRow) (lost recovered : Option Time)
    → IsLatest heartbeat_lost rows none lost
    → IsLatest heartbeat_recovered rows none recovered
    → (is_open lost recovered ≡ true) ↔ OpenLoss rows
unfolding OpenLoss
open_iff rows none recovered losses recoveries =
    (λ e. cc, λ (t, recorded, later). let (u, e, above) = losses.covers t recorded in cc)
open_iff rows (some lost) none losses recoveries = (
  λ e. (
    lost,
    recorded_at heartbeat_lost rows lost losses,
    λ s recorded. let (u, bad, above) = recoveries.covers s recorded in cc,
  ),
  λ h. refl,
)
open_iff rows (some lost) (some recovered) losses recoveries = (
  λ e. (
    lost,
    recorded_at heartbeat_lost rows lost losses,
    λ s recorded. let (u, is_u, above) = recoveries.covers s recorded in ground arith,
  ),
  λ (t, recorded, later).
      let (u, is_u, above) = losses.covers t recorded in
      let before = later recovered (recorded_at heartbeat_recovered rows recovered recoveries) in
      ground arith,
)

-- The dashboard says that a heartbeat is lost exactly when the log holds a lost heartbeat that is
-- later than every recovered one, in whatever order the rows come.
pub is_alerting_iff : (rows : List EventRow) → (is_alerting rows ≡ true) ↔ OpenLoss rows
unfolding is_alerting
is_alerting_iff rows =
    let start : Marks = record { lost = none; recovered = none } in
    open_iff rows (scan rows start).lost (scan rows start).recovered (scan-lost rows start)
      (scan-recovered rows start)
