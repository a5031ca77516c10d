-- ===== src/Ca/Dictionary.antt =====
-- A dictionary of actions as a function of the path: the laws that ca_coalesce needs can hold.
use audited_objects.Prelude.{
  ◌≡◌, ◌≢◌, refl, Option, none, some, if◌then◌else◌, Bytes, str_eq, str_eq_iff, str_eq_refl, false,
  Bool-cases, inl, inr,
}
use audited_objects.Pa.{Pa}
use audited_objects.Ca.Coalesce.{Dict}

pub other_path : (k k' : Bytes) → k ≢ k' → str_eq k k' ≡ false
other_path k k' ne = elim (Bool-cases (str_eq k k')) [
  | inl same ↦ absurd (ne ((str_eq_iff k k').0 same))
  | inr other ↦ other
]

abbrev pub by_path : Dict
by_path = record {
  Carrier = Bytes → Option Pa;
  empty = λ k. none;
  lookup = λ d k. d k;
  insert = λ k pa d k'. if str_eq k k' then some pa else d k';
  delete = λ k d k'. if str_eq k k' then none else d k';
  lookup-empty = λ k. refl;
  lookup-insert_same = λ k pa d. rw (str_eq_refl k);
  lookup-insert_other = λ k k' pa d ne. rw (other_path k k' ne);
  lookup-delete_other = λ k k' d ne. rw (other_path k k' ne);
}
