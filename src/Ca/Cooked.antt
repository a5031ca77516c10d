-- ===== src/Ca/Cooked.antt =====
-- What ca_coalesce leaves for each path.
use audited_objects.Prelude.{
  abort, null, zero, suc, ◌==◌, true, false, ℕ, ◌≡◌, Bool, not, ◌&&◌, Option, none, some, List, [],
  ◌∷◌, if◌then◌else◌, Bytes, str_eq, Outcome, ok, ◌>>=◌, Bool-cases, inl, inr, refl, sym, ap, ◌∙◌,
  ◌≢◌, str_eq_iff, All, arith,
}
use audited_objects.Prelude.Int.{ℤ, pos, negsuc}
use audited_objects.Moment.{Moment, moment_cmp}
use audited_objects.Ps.{Ps}
use audited_objects.Pa.{Pa, pa_get_rel, pa_is_read, pa_has_timestamp, pa_copy}
use audited_objects.Ca.Coalesce.{
  Dict, cook, insert_copy, replace_unless, ca_coalesce, pa_get_moment, not_later, keep_cooked,
}

-- The times of two actions: their own if both have one, otherwise those of their files.
unfoldable pub times : Pa → Pa → Outcome (Moment × Moment)
unfolding pa_get_moment
times raw ckd =
    if pa_has_timestamp raw && pa_has_timestamp ckd
    then ok (raw.pa_timestamp, ckd.pa_timestamp)
    else (pa_get_moment raw >>= λ m. pa_get_moment ckd >>= λ n. ok (m, n))

-- Is the first moment after the second?
unfoldable pub is_after : ℕ → Moment × Moment → Bool
is_after roundoff t = elim (moment_cmp roundoff t.0 t.1) [
  | pos zero ↦ false
  | pos (suc n) ↦ true
  | negsuc n ↦ false
]

-- Of two actions on one path, the later of two writes; a read never takes the place of what is there,
-- and a write always takes that of a read.
unfoldable pub winner : ℕ → Pa → Option Pa → Outcome (Option Pa)
unfolding times is_after
winner roundoff raw none = ok (some raw)
winner roundoff raw (some ckd) =
    if pa_is_read raw
    then ok (some ckd)
    else if pa_is_read ckd
    then ok (some raw)
    else (times raw ckd >>= λ t. ok (some (if is_after roundoff t then raw else ckd)))

-- What the code does with its variable `keep_cooked`.
abbrev chosen : Pa → Pa → Bool → Outcome (Option Pa)
chosen raw ckd keep = ok (some (if keep then ckd else raw))

is_after-not_later :
    (roundoff : ℕ) (m n : Moment) → is_after roundoff (m, n) ≡ not (not_later roundoff m n)
unfolding is_after not_later
is_after-not_later roundoff m n = by_cmp (moment_cmp roundoff m n)
  where
    by_cmp :
        (x : ℤ)
        → (elim x as (λ y. Bool) [ pos zero ↦ false | pos (suc k) ↦ true | negsuc k ↦ false ])
          ≡ not (elim x as (λ y. Bool) [ pos k ↦ k == 0 | negsuc k ↦ true ])
    by_cmp (pos zero) = refl
    by_cmp (pos (suc k)) = ground arith
    by_cmp (negsuc k) = refl

later-chosen :
    (roundoff : ℕ) (raw ckd : Pa) (m n : Moment)
    → ok (some (if is_after roundoff (m, n) then raw else ckd))
      ≡ chosen raw ckd (not_later roundoff m n)
later-chosen roundoff raw ckd m n =
    rw (is_after-not_later roundoff m n) (by_test (not_later roundoff m n))
  where
    by_test :
        (b : Bool)
        → ◌≡◌ {A = Outcome (Option Pa)} (ok (some (if not b then raw else ckd))) (chosen raw ckd b)
    by_test true = refl
    by_test false = refl

pub winner-keep_cooked :
    (roundoff : ℕ) (raw ckd : Pa)
    → winner roundoff raw (some ckd) ≡ (keep_cooked roundoff raw ckd >>= chosen raw ckd)
unfolding winner keep_cooked times
winner-keep_cooked roundoff raw ckd = elim (Bool-cases (pa_is_read raw)) [
  | inl reads ↦ rw reads refl
  | inr writes ↦ rw writes (elim (Bool-cases (pa_is_read ckd)) [
    | inl over ↦ rw over refl
    | inr both ↦ rw both (elim (Bool-cases (pa_has_timestamp raw && pa_has_timestamp ckd)) [
      | inl timed ↦ rw timed (later-chosen roundoff raw ckd raw.pa_timestamp ckd.pa_timestamp)
      | inr untimed ↦ rw untimed (by_moments (pa_get_moment raw) (pa_get_moment ckd))
    ])
  ])
]
  where
    by_moments :
        (o o' : Outcome Moment)
        → ((o >>= λ m. o' >>= λ n. ok (m, n)) >>= λ t.
            ok (some (if is_after roundoff t then raw else ckd)))
          ≡ ((o >>= λ m. o' >>= λ n. ok (not_later roundoff m n)) >>= chosen raw ckd)
    by_moments null o' = refl
    by_moments abort o' = refl
    by_moments (ok m) null = refl
    by_moments (ok m) abort = refl
    by_moments (ok m) (ok n) = later-chosen roundoff raw ckd m n

kept-winner :
    (roundoff : ℕ) (raw ckd : Pa) (b : Bool)
    → keep_cooked roundoff raw ckd ≡ ok b
    → winner roundoff raw (some ckd) ≡ chosen raw ckd b
kept-winner roundoff raw ckd b kept =
    winner-keep_cooked roundoff raw ckd ∙ ap (λ m. m >>= chosen raw ckd) kept

-- The winner among the actions on the path `k`, in their order.
unfoldable pub winner_of : ℕ → Bytes → List (Bytes × Pa) → Option Pa → Outcome (Option Pa)
unfolding winner str_eq
winner_of roundoff k [] best = ok best
winner_of roundoff k ((rel, raw) ∷ raws) best =
    (if str_eq rel k then winner roundoff raw best else ok best) >>= λ best'.
    winner_of roundoff k raws best'

-- An action with a state, whose path is `rel` and which pa_copy copies.
pub record IsRaw (base : Bytes) (cwd : Option Bytes) (entry : Bytes × Pa) : Type 0 where
  pub ps : Ps
  pub has_ps : entry.1.pa_ps ≡ some ps
  pub has_rel : pa_get_rel entry.1 ≡ ok entry.0
  pub copied : pa_copy base cwd entry.1 ≡ ok entry.1

abbrev HasState : Option Pa → Type 0
HasState none = Unit
HasState (some pa) = (ps : Ps) × (pa.pa_ps ≡ some ps)

keep_cooked_total :
    (roundoff : ℕ) (raw ckd : Pa)
    → HasState (some raw)
    → HasState (some ckd)
    → (b : Bool) × (keep_cooked roundoff raw ckd ≡ ok b)
unfolding keep_cooked
keep_cooked_total roundoff raw ckd (ps, e) (ps', e') =
    elim (Bool-cases (not (pa_is_read raw) && not (pa_is_read ckd))) [
      | inr reads ↦ (pa_is_read raw, rw reads)
      | inl writes ↦ elim (Bool-cases (pa_has_timestamp raw && pa_has_timestamp ckd)) [
        | inl timed ↦ (not_later roundoff raw.pa_timestamp ckd.pa_timestamp, rw writes (rw timed))
        | inr untimed ↦
            let m : pa_get_moment raw ≡ ok ps.ps_moment = unfold pa_get_moment in rw e in
            let n : pa_get_moment ckd ≡ ok ps'.ps_moment = unfold pa_get_moment in rw e' in
            (not_later roundoff ps.ps_moment ps'.ps_moment, rw writes (rw untimed (rw m (rw n))))
      ]
    ]

module _ (dict : Dict) (roundoff : ℕ) (base : Bytes) (cwd : Option Bytes) where
  -- What one round does: for the path of the raw action the winner, for any other path nothing.
  record IsCooked (rel : Bytes) (raw : Pa) (best : Option Pa) (d d' : dict.Carrier) : Type 0 where
    here : winner roundoff raw best ≡ ok (dict.lookup d' rel)
    state : HasState (dict.lookup d' rel)
    elsewhere : (k : Bytes) → rel ≢ k → dict.lookup d' k ≡ dict.lookup d k

  insert_copy_lem :
      (rel : Bytes) (raw : Pa) (d : dict.Carrier)
      → IsRaw base cwd (rel, raw)
      → insert_copy dict roundoff base cwd raw d ≡ ok (dict.insert rel raw d)
  unfolding insert_copy
  insert_copy_lem rel raw d r = rw (r.copied) (rw (r.has_rel))

  replace_lem :
      (b : Bool) (rel : Bytes) (raw ckd : Pa) (d : dict.Carrier)
      → keep_cooked roundoff raw ckd ≡ ok b
      → IsRaw base cwd (rel, raw)
      → dict.lookup d rel ≡ some ckd
      → HasState (some ckd)
      → (d' : dict.Carrier) × (replace_unless dict roundoff base cwd b rel raw d ≡ ok d')
        × IsCooked rel raw (some ckd) d d'
  unfolding replace_unless
  replace_lem true rel raw ckd d kept r e h = (
    d,
    refl,
    record {
      here = kept-winner roundoff raw ckd true kept ∙ ap ok (sym e);
      state = rw e h;
      elsewhere = λ k ne. refl;
    },
  )
  replace_lem false rel raw ckd d kept r e h =
      let rest = dict.delete rel d in
      let found = dict.lookup-insert_same rel raw rest in
      (
        dict.insert rel raw rest,
        insert_copy_lem rel raw rest r,
        record {
          here = kept-winner roundoff raw ckd false kept ∙ ap ok (sym found);
          state = rw found (r.ps, r.has_ps);
          elsewhere = λ k ne.
              dict.lookup-insert_other rel k raw rest ne ∙ dict.lookup-delete_other rel k d ne;
        },
      )

  cook_lem :
      (rel : Bytes) (raw : Pa) (best : Option Pa) (d : dict.Carrier)
      → IsRaw base cwd (rel, raw)
      → dict.lookup d rel ≡ best
      → HasState best
      → (d' : dict.Carrier) × (cook dict roundoff base cwd raw rel best d ≡ ok d')
        × IsCooked rel raw best d d'
  unfolding cook
  cook_lem rel raw none d r e h =
      let found = dict.lookup-insert_same rel raw d in
      (
        dict.insert rel raw d,
        insert_copy_lem rel raw d r,
        record {
          here = unfold winner in ap ok (sym found);
          state = rw found (r.ps, r.has_ps);
          elsewhere = λ k ne. dict.lookup-insert_other rel k raw d ne;
        },
      )
  cook_lem rel raw (some ckd) d r e h =
      let (b, kept) = keep_cooked_total roundoff raw ckd (r.ps, r.has_ps) h in
      let (d', done, c) = replace_lem b rel raw ckd d kept r e h in (d', rw kept done, c)

  -- The winners so far, and those that a further raw action leaves.
  winner_of_step :
      (k rel : Bytes) (raw : Pa) (raws : List (Bytes × Pa)) (d d' : dict.Carrier) (out : Option Pa)
      → IsCooked rel raw (dict.lookup d rel) d d'
      → winner_of roundoff k raws (dict.lookup d' k) ≡ ok out
      → winner_of roundoff k ((rel, raw) ∷ raws) (dict.lookup d k) ≡ ok out
  unfolding winner_of
  winner_of_step k rel raw raws d d' out c e = elim (Bool-cases (str_eq rel k)) [
    | inl same ↦
        let eq : rel ≡ k = (str_eq_iff rel k).0 same in
        let here : winner roundoff raw (dict.lookup d k) ≡ ok (dict.lookup d' k) =
          rw (← eq) (c.here) in
        rw same (rw here e)
    | inr other ↦
        let ne : rel ≢ k = λ eq. ground (arith, other, (str_eq_iff rel k).1 eq) in
        rw other (rw (← c.elsewhere k ne) e)
  ]

  has_state_step :
      (rel : Bytes) (raw : Pa) (d d' : dict.Carrier)
      → IsCooked rel raw (dict.lookup d rel) d d'
      → ((k : Bytes) → HasState (dict.lookup d k))
      → (k : Bytes) → HasState (dict.lookup d' k)
  has_state_step rel raw d d' c h k = elim (Bool-cases (str_eq rel k)) [
    | inl same ↦ let eq : rel ≡ k = (str_eq_iff rel k).0 same in rw (← eq) (c.state)
    | inr other ↦
        let ne : rel ≢ k = λ eq. ground (arith, other, (str_eq_iff rel k).1 eq) in
        rw (c.elsewhere k ne) (h k)
  ]

  abbrev pub actions : List (Bytes × Pa) → List Pa
  actions [] = []
  actions (entry ∷ raws) = entry.1 ∷ actions raws

  coalesced :
      (raws : List (Bytes × Pa)) (d : dict.Carrier)
      → All (IsRaw base cwd) raws
      → ((k : Bytes) → HasState (dict.lookup d k))
      → (d' : dict.Carrier) × (ca_coalesce dict roundoff base cwd (actions raws) d ≡ ok d')
        × ((k : Bytes) → winner_of roundoff k raws (dict.lookup d k) ≡ ok (dict.lookup d' k))
  unfolding ca_coalesce
  coalesced [] d r h = (d, refl, λ k. unfold winner_of in refl)
  coalesced ((rel, raw) ∷ raws) d r h =
      let (d1, done, c) = cook_lem rel raw (dict.lookup d rel) d r.0 refl (h rel) in
      let (d', rest, w) = coalesced raws d1 r.1 (has_state_step rel raw d d1 c h) in
      (d', rw (r.0.has_rel) (rw done rest), λ k. winner_of_step k rel raw raws d d1 _ c (w k))

  pub ca_coalesce-winner_of :
      (raws : List (Bytes × Pa))
      → All (IsRaw base cwd) raws
      → (d : dict.Carrier) × (ca_coalesce dict roundoff base cwd (actions raws) dict.empty ≡ ok d)
        × ((k : Bytes) → winner_of roundoff k raws none ≡ ok (dict.lookup d k))
  ca_coalesce-winner_of raws r =
      let (d, done, w) = coalesced raws dict.empty r (λ k. rw (dict.lookup-empty k) tt) in
      (d, done, λ k. rw (← dict.lookup-empty k) (w k))
