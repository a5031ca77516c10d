-- ===== src/Ca/Coalesce.antt =====
-- ca_coalesce: the raw path actions of a command, in the order of their dictionary, become cooked ones,
-- one for each path. The dictionary of cooked ones is kazlib's, ordered by pa_cmp_by_pathname.
use audited_objects.Prelude.{
  false, ℕ, ◌≡◌, ◌≢◌, Bool, true, not, ◌&&◌, Option, none, some, List, [], ◌∷◌, ◌==◌, if◌then◌else◌,
  Bytes, Outcome, ok, ◌>>=◌,
}
use audited_objects.Prelude.Int.{pos, negsuc}
use audited_objects.Moment.{Moment, moment_cmp}
use audited_objects.Pa.{Pa, the_ps, pa_get_rel, pa_is_read, pa_has_timestamp, pa_copy}

-- What ca_coalesce uses of the dictionary: an object is found by its path.
pub record Dict : Type 1 where
  pub Carrier : Type 0
  pub empty : Carrier
  pub lookup : Carrier → Bytes → Option Pa
  pub insert : Bytes → Pa → Carrier → Carrier
  pub delete : Bytes → Carrier → Carrier
  pub lookup-empty : (k : Bytes) → lookup empty k ≡ none
  pub lookup-insert_same : (k : Bytes) (pa : Pa) (d : Carrier) → lookup (insert k pa d) k ≡ some pa
  pub lookup-insert_other :
      (k k' : Bytes) (pa : Pa) (d : Carrier) → k ≢ k' → lookup (insert k pa d) k' ≡ lookup d k'
  pub lookup-delete_other :
      (k k' : Bytes) (d : Carrier) → k ≢ k' → lookup (delete k d) k' ≡ lookup d k'

unfoldable pub pa_get_moment : Pa → Outcome Moment
pa_get_moment pa = do ps ← the_ps pa.pa_ps; ok ps.ps_moment

-- `moment_cmp(raw_timestamp, ckd_timestamp, NULL) <= 0`
unfoldable pub not_later : ℕ → Moment → Moment → Bool
not_later roundoff raw ckd = elim (moment_cmp roundoff raw ckd) [ pos n ↦ n == 0 | negsuc n ↦ true ]

-- The variable `keep_cooked`, for a raw action and the cooked one of its path.
unfoldable pub keep_cooked : ℕ → Pa → Pa → Outcome Bool
unfolding not_later pa_get_moment
keep_cooked roundoff raw ckd =
    if not (pa_is_read raw) && not (pa_is_read ckd)
    then (if pa_has_timestamp raw && pa_has_timestamp ckd
        then ok (not_later roundoff raw.pa_timestamp ckd.pa_timestamp)
        else (pa_get_moment raw >>= λ m. pa_get_moment ckd >>= λ n. ok (not_later roundoff m n)))
    else ok (pa_is_read raw)

module _ (dict : Dict) (roundoff : ℕ) (base : Bytes) (cwd : Option Bytes) where
  -- `dict_insert(dict_cooked, dnpc, pa_copy(raw_pa))`
  unfoldable pub insert_copy : Pa → dict.Carrier → Outcome dict.Carrier
  insert_copy raw cooked = do
    copy ← pa_copy base cwd raw
    rel ← pa_get_rel copy
    ok (dict.insert rel copy cooked)

  unfoldable pub replace_unless : Bool → Bytes → Pa → dict.Carrier → Outcome dict.Carrier
  unfolding insert_copy
  replace_unless true rel raw cooked = ok cooked
  replace_unless false rel raw cooked = insert_copy raw (dict.delete rel cooked)

  -- One round: the raw action, its path, and the cooked one of that path, if there is one.
  unfoldable pub cook : Pa → Bytes → Option Pa → dict.Carrier → Outcome dict.Carrier
  unfolding keep_cooked replace_unless
  cook raw rel none cooked = insert_copy raw cooked
  cook raw rel (some ckd) cooked = do
    keep ← keep_cooked roundoff raw ckd
    replace_unless keep rel raw cooked

  -- The loop of ca_coalesce.
  unfoldable pub ca_coalesce : List Pa → dict.Carrier → Outcome dict.Carrier
  unfolding cook
  ca_coalesce [] cooked = ok cooked
  ca_coalesce (raw ∷ raws) cooked = do
    rel ← pa_get_rel raw
    cooked' ← cook raw rel (dict.lookup cooked rel) cooked
    ca_coalesce raws cooked'
