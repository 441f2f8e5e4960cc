-- ===== src/Timeline/Presence.antt =====
-- Who speaks is in the scene.
use mathlib.Core.Path.{subst}
use mathlib.Core.Option.{some-injective}
use zolexai.Prelude.{
  inl, inr, ℕ, suc, ◌+◌, ◌≤◌, ◌<◌, ◌≡◌, refl, sym, ap, ◌∙◌, Bool, true, false, ◌||◌, Bool-cases,
  Option-cases, Option, none, some, List, [], ◌∷◌, ◌++◌, arith, leb, ◌==◌, ==_iff, if◌then◌else◌,
  if_true, if_false, lt→ltb, select, Some,
}
use zolexai.Timeline.{
  DirectorEvent, among, exit_time, stays, present_ids, Departed, left_at, set_default, depart,
  Problem, exits_again, late_for, speaks_late, check_from, check_exit_consistency,
}

-- The order of the sorted timeline, none starting before a moment, with events that last longer than
-- the tolerance of a microsecond.
abbrev pub Rising : ℕ → List DirectorEvent → Type 0
Rising moment [] = Unit
Rising moment (e ∷ events) = (moment ≤ e.start) × (e.start + 1 < e.end) × Rising e.start events

exit_time-later :
    (moment : ℕ) (events : List DirectorEvent) (identifier t : ℕ)
    → Rising moment events
    → exit_time events identifier ≡ some t
    → moment + 1 < t
unfolding exit_time
exit_time-later moment [] identifier t rising h = cc h
exit_time-later moment (e ∷ events) identifier t rising h =
    elim (Bool-cases (among identifier e.exits)) [
      | inl a ↦
          let same = some-injective _ _ (sym (if_true (among identifier e.exits) _ _ a) ∙ h) in
          omega (arith, rising, same)
      | inr a ↦
          let later =
            exit_time-later e.start events identifier t rising.2
              (sym (if_false (among identifier e.exits) _ _ a) ∙ h) in
          omega (arith, rising, later)
    ]

abbrev or_else : Option ℕ → Option ℕ → Option ℕ
or_else none o = o
or_else (some t) o = some t

or_else-none : (o : Option ℕ) → or_else o none ≡ o
or_else-none none = refl
or_else-none (some t) = refl

or_else_assoc : (a b c : Option ℕ) → or_else (or_else a b) c ≡ or_else a (or_else b c)
or_else_assoc none b c = refl
or_else_assoc (some t) b c = refl

abbrev given : Bool → ℕ → Option ℕ
given b t = if b then some t else none

or_else-given :
    (b : Bool) (t : ℕ) (o : Option ℕ) → or_else (given b t) o ≡ (if b then some t else o)
or_else-given true t o = refl
or_else-given false t o = refl

given-or : (a b : Bool) (t : ℕ) → or_else (given a t) (given b t) ≡ given (a || b) t
given-or true b t = refl
given-or false b t = refl

left_at-set_default :
    (i t : ℕ) (departed : Departed) (identifier : ℕ)
    → left_at (set_default i t departed) identifier
      ≡ or_else (left_at departed identifier) (given (i == identifier) t)
left_at-set_default i t departed identifier = elim (Option-cases (left_at departed i)) [
  | inl n ↦ elim (Bool-cases (i == identifier)) [
    | inl e ↦
        let same = sym (ap (left_at departed) ((==_iff i identifier).0 e)) ∙ n in
        rw (n, e, same) refl
    | inr e ↦ rw (n, e, or_else-none (left_at departed identifier)) refl
  ]
  | inr (s, h) ↦ elim (Bool-cases (i == identifier)) [
    | inl e ↦
        let same = sym (ap (left_at departed) ((==_iff i identifier).0 e)) ∙ h in
        rw (h, e, same) refl
    | inr e ↦ rw (h, e, or_else-none (left_at departed identifier)) refl
  ]
]

left_at-depart :
    (ids : List ℕ) (t : ℕ) (departed : Departed) (identifier : ℕ)
    → left_at (depart ids t departed) identifier
      ≡ or_else (left_at departed identifier) (given (among identifier ids) t)
left_at-depart [] t departed identifier = sym (or_else-none (left_at departed identifier))
left_at-depart (i ∷ ids) t departed identifier =
    left_at-depart ids t (set_default i t departed) identifier
    ∙ ap (λ o. or_else o (given (among identifier ids) t))
        (left_at-set_default i t departed identifier)
    ∙ or_else_assoc (left_at departed identifier) (given (i == identifier) t)
        (given (among identifier ids) t)
    ∙ ap (or_else (left_at departed identifier))
        (given-or (i == identifier) (among identifier ids) t)

-- When someone leaves, after those who have left and in the events to come.
abbrev leaves : Departed → List DirectorEvent → ℕ → Option ℕ
leaves departed events identifier =
    or_else (left_at departed identifier) (exit_time events identifier)

leaves-depart :
    (departed : Departed) (e : DirectorEvent) (events : List DirectorEvent) (identifier : ℕ)
    → leaves departed (e ∷ events) identifier
      ≡ leaves (depart e.exits e.end departed) events identifier
unfolding exit_time
leaves-depart departed e events identifier = sym (
    ap (λ o. or_else o (exit_time events identifier))
      (left_at-depart e.exits e.end departed identifier)
    ∙ or_else_assoc (left_at departed identifier) (given (among identifier e.exits) e.end)
        (exit_time events identifier)
    ∙ ap (or_else (left_at departed identifier))
        (or_else-given (among identifier e.exits) e.end (exit_time events identifier)))

append-nil_left : (xs ys : List Problem) → xs ++ ys ≡ [] → xs ≡ []
append-nil_left [] ys h = refl
append-nil_left (x ∷ xs) ys h = cc h

append-nil_right : (xs ys : List Problem) → xs ++ ys ≡ [] → ys ≡ []
append-nil_right [] ys h = h
append-nil_right (x ∷ xs) ys h = cc h

stays-on_time :
    (index start speaker : ℕ) (left exit : Option ℕ)
    → late_for index start speaker left ≡ []
    → ((t : ℕ) → exit ≡ some t → start + 1 < t)
    → stays (or_else left exit) start ≡ true
stays-on_time index start speaker none none quiet later = refl
stays-on_time index start speaker none (some t) quiet later = lt→ltb (start + 1) t (later t refl)
stays-on_time index start speaker (some t) exit quiet later =
    elim (Bool-cases (leb t (start + 1))) [
      | inl late ↦ cc (sym (if_true (leb t (start + 1)) _ _ late) ∙ quiet)
      | inr early ↦ ground (arith, early)
    ]

-- The events of the timeline that are one event.
abbrev pub Occurs : DirectorEvent → List DirectorEvent → Type 0
Occurs e events = Some (λ f. f ≡ e) events

speaks_late-stays :
    (departed : Departed) (index : ℕ) (e : DirectorEvent) (exit : Option ℕ) (s : ℕ)
    → e.speaker ≡ some s
    → speaks_late departed index e ≡ []
    → ((t : ℕ) → exit ≡ some t → e.start + 1 < t)
    → stays (or_else (left_at departed s) exit) e.start ≡ true
speaks_late-stays departed index e exit s speaks quiet later =
    let on_time =
      subst
        (λ o.
          (elim o [
            | none ↦ []
            | some speaker ↦ late_for index e.start speaker (left_at departed speaker)
          ])
          ≡ [])
        speaks quiet in
    stays-on_time index e.start s (left_at departed s) exit on_time later

check_from-quiet :
    (departed : Departed) (index : ℕ) (e : DirectorEvent) (events : List DirectorEvent)
    → check_from departed index (e ∷ events) ≡ []
    → (speaks_late departed index e ≡ [])
      × (check_from (depart e.exits e.end departed) (suc index) events ≡ [])
unfolding check_from
check_from-quiet departed index e events quiet =
    let now = exits_again departed e.exits ++ speaks_late departed index e in
    let later = check_from (depart e.exits e.end departed) (suc index) events in
    (
      append-nil_right (exits_again departed e.exits) (speaks_late departed index e)
          (append-nil_left now later quiet),
      append-nil_right now later quiet,
    )

check_from-stays :
    (departed : Departed) (index moment : ℕ) (events : List DirectorEvent) (e : DirectorEvent)
    (s : ℕ)
    → Rising moment events
    → check_from departed index events ≡ []
    → Occurs e events
    → e.speaker ≡ some s
    → stays (leaves departed events s) e.start ≡ true
unfolding check_from
check_from-stays departed index moment [] e s rising quiet occurs speaks = absurd occurs
check_from-stays departed index moment (f ∷ events) e s rising quiet (inl same) speaks =
    let on_time = (check_from-quiet departed index f events quiet).0 in
    let here =
      speaks_late-stays departed index f (exit_time (f ∷ events) s) s
        (ap (λ (x : DirectorEvent). x.speaker) same ∙ speaks) on_time
        (λ t h. exit_time-later f.start (f ∷ events) s t (omega arith, rising.1, rising.2) h) in
    ap (λ (x : DirectorEvent). stays (leaves departed (f ∷ events) s) x.start) (sym same) ∙ here
check_from-stays departed index moment (f ∷ events) e s rising quiet (inr occurs) speaks =
    let later = (check_from-quiet departed index f events quiet).1 in
    ap (λ o. stays o e.start) (leaves-depart departed f events s)
    ∙ check_from-stays (depart f.exits f.end departed) (suc index) f.start events e s rising.2 later
        occurs speaks

among-select :
    (p : ℕ → Bool) (s : ℕ) (ids : List ℕ)
    → p s ≡ true
    → among s ids ≡ true
    → among s (select p ids) ≡ true
among-select p s [] h a = a
among-select p s (i ∷ ids) h a = elim (Bool-cases (i == s)) [
  | inl same ↦ let kept = ap p ((==_iff i s).0 same) ∙ h in rw (kept, same) refl
  | inr other ↦
      let rest = among-select p s ids h (sym (ap (λ b. b || among s ids) other) ∙ a) in
      elim (Bool-cases (p i)) [ inl k ↦ rw (k, other, rest) refl | inr k ↦ rw (k, rest) refl ]
]

-- In a timeline whose check finds no problem, in the order of its starts and with events that last
-- longer than the tolerance of a microsecond, a character of the cast who speaks in an event is
-- among those in the scene at its start.
pub speaker-IsPresent :
    (events : List DirectorEvent) (cast : List ℕ) (e : DirectorEvent) (s : ℕ)
    → Rising 0 events
    → check_exit_consistency events ≡ []
    → Occurs e events
    → e.speaker ≡ some s
    → among s cast ≡ true
    → among s (present_ids events cast e.start) ≡ true
unfolding check_exit_consistency present_ids
speaker-IsPresent events cast e s rising quiet occurs speaks known =
    among-select (λ i. stays (exit_time events i) e.start) s cast
      (check_from-stays [] 1 0 events e s rising quiet occurs speaks) known
