-- ===== src/Pn/Canon/Resolve.antt =====
-- What canonicalisation means: a path is a list of components, which are resolved one after the
-- other against the directories walked so far, innermost first.
use audited_objects.Prelude.{
  ◌≢◌, ℕ, ◌≡◌, ◌&&◌, List, [], ◌∷◌, ◌++◌, ◌==◌, if◌then◌else◌, Bytes, All,
}
use audited_objects.Pn.Canon.{true, false, is_sep, dst_sep}

pub data Kind : Type 0 where
  empty dot dotdot name : Kind

-- A component is empty, ".", ".." or the name of an entry.
unfoldable pub kind : Bytes → Kind
kind [] = empty
kind (a ∷ []) = if a == b'.' then dot else name
kind (a ∷ b ∷ []) = if a == b'.' && b == b'.' then dotdot else name
kind (a ∷ b ∷ c ∷ s) = name

-- The parent of a directory; that of the root is the root.
unfoldable pub outer : List Bytes → List Bytes
outer [] = []
outer (n ∷ dirs) = dirs

-- Walking into a component.
unfoldable pub walk : Kind → Bytes → List Bytes → List Bytes
walk empty c dirs = dirs
walk dot c dirs = dirs
walk dotdot c dirs = outer dirs
walk name c dirs = c ∷ dirs

-- The text of a directory, which ends in a slash.
unfoldable pub dir_text : List Bytes → Bytes
dir_text [] = dst_sep ∷ []
dir_text (n ∷ dirs) = dir_text dirs ++ (n ++ (dst_sep ∷ []))

-- The text of the last component: a name gets no slash.
unfoldable pub last_text : Kind → Bytes → List Bytes → Bytes
last_text name c dirs = dir_text dirs ++ c
last_text empty c dirs = dir_text dirs
last_text dot c dirs = dir_text dirs
last_text dotdot c dirs = dir_text (outer dirs)

unfoldable pub resolve_from : List Bytes → Bytes → List (ℕ × Bytes) → Bytes
resolve_from dirs c [] = last_text (kind c) c dirs
resolve_from dirs c ((s, d) ∷ cs) = resolve_from (walk (kind c) c dirs) d cs

-- The path as the program reads it, from its first component to the NUL.
unfoldable pub source_text : Bytes → List (ℕ × Bytes) → Bytes
source_text c [] = c ++ (0 ∷ [])
source_text c ((s, d) ∷ cs) = c ++ (s ∷ source_text d cs)

-- The components of a text.
unfoldable pub components : Bytes → Bytes × List (ℕ × Bytes)
components [] = ([], [])
components (c ∷ s) =
    let (d, cs) = components s in if is_sep c then ([], (c, d) ∷ cs) else (c ∷ d, cs)

-- The canonical form of "/" and the text.
unfoldable pub resolve : Bytes → Bytes
unfolding components resolve_from kind walk last_text dir_text outer
resolve s = let (c, cs) = components s in resolve_from [] c cs

-- A byte of a component.
abbrev pub IsPlain : ℕ → Type 0
IsPlain c = is_sep c ≡ false

-- Components that no separator stands in, and separators that are not the NUL.
abbrev pub IsSplit : Bytes → List (ℕ × Bytes) → Type 0
IsSplit c [] = All IsPlain c
IsSplit c ((s, d) ∷ cs) = All IsPlain c × (is_sep s ≡ true) × (s ≢ 0) × IsSplit d cs
