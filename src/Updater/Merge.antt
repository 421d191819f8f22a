-- ===== src/Updater/Merge.antt =====
-- What the merged list holds under a name.
use tundler.Base.{
  ℕ, zero, suc, ◌≡◌, refl, ◌∙◌, sym, ap, inl, inr, Text, Bool, true, false, ◌||◌, Option, none,
  some, List, [], ◌∷◌, ◌++◌, map, text_eq, text_eq→eq, elem, length, IsDistinct, All, Bool-cases,
  Option-cases, arith, if◌then◌else◌,
}
use mathlib.Core.List.{append_assoc, append-nil}
use tundler.Base.Sorting.{text_eq_sym}
use tundler.Updater.{
  LogicalServer, Merged, index_of, set_at, add_standard, place, add_secure, merge_logicals,
}

abbrev pub names : List LogicalServer → List Text
names ss = map (λ s. s.name) ss

-- The first entry of a name, and the last.
abbrev pub first : Text → List LogicalServer → Option LogicalServer
first n [] = none
first n (s ∷ ss) = let rest = first n ss in if text_eq n s.name then some s else rest

abbrev pub or : Option LogicalServer → Option LogicalServer → Option LogicalServer
or none o = o
or (some s) o = some s

abbrev pub last : Text → List LogicalServer → Option LogicalServer
last n [] = none
last n (s ∷ ss) = or (last n ss) (if text_eq n s.name then some s else none)

-- The place of the first entry of a name.
abbrev shift : Option ℕ → Option ℕ
shift none = none
shift (some i) = some (suc i)

abbrev position : Text → List LogicalServer → Option ℕ
position n [] = none
position n (s ∷ ss) = let rest = position n ss in if text_eq n s.name then some 0 else shift rest

-- The map holds the places of the names.
abbrev IsIndex : Merged → Type 0
IsIndex (out, seen) = (n : Text) → index_of n seen ≡ position n out

abbrev or_end : Option ℕ → Bool → ℕ → Option ℕ
or_end none b i = if b then some i else none
or_end (some j) b i = some j

position-append :
    (n : Text) (out : List LogicalServer) (s : LogicalServer)
    → position n (out ++ (s ∷ [])) ≡ or_end (position n out) (text_eq n s.name) (length out)
position-append n [] s = ground arith
position-append n (x ∷ out) s = ground (arith, position-append n out s)

first-append :
    (n : Text) (out : List LogicalServer) (s : LogicalServer)
    → first n (out ++ (s ∷ [])) ≡ or (first n out) (if text_eq n s.name then some s else none)
first-append n [] s = ground arith
first-append n (x ∷ out) s = ground (arith, first-append n out s)

elem-append_one :
    (n : Text) (out : List LogicalServer) (s : LogicalServer)
    → elem n (names (out ++ (s ∷ []))) ≡ (elem n (names out) || text_eq n s.name)
elem-append_one n [] s = ground arith
elem-append_one n (x ∷ out) s = ground (arith, elem-append_one n out s)

-- The first entry of a name is at its place.
first-position : (n : Text) (out : List LogicalServer) → position n out ≡ none → first n out ≡ none
first-position n [] e = refl
first-position n (x ∷ out) e = ground (arith, e, first-position n out)

elem-position :
    (n : Text) (out : List LogicalServer) → position n out ≡ none → elem n (names out) ≡ false
elem-position n [] e = refl
elem-position n (x ∷ out) e = ground (arith, e, elem-position n out)

position-elem :
    (n : Text) (out : List LogicalServer) → elem n (names out) ≡ false → position n out ≡ none
position-elem n [] e = refl
position-elem n (x ∷ out) e = ground (arith, e, position-elem n out)

shift-suc : (o : Option ℕ) (i : ℕ) → shift o ≡ some (suc i) → o ≡ some i
shift-suc none i e = cc
shift-suc (some j) i e = ground (arith, e)

at_zero :
    (n : Text) (x : LogicalServer) (out : List LogicalServer)
    → position n (x ∷ out) ≡ some 0
    → text_eq n x.name ≡ true
at_zero n x out e = elim (Bool-cases (text_eq n x.name)) [
  | inl f ↦ f
  | inr f ↦ absurd (ground (arith, e, f))
]

at_suc :
    (n : Text) (x : LogicalServer) (out : List LogicalServer) (i : ℕ)
    → position n (x ∷ out) ≡ some (suc i)
    → (text_eq n x.name ≡ false) × (position n out ≡ some i)
at_suc n x out i e = elim (Bool-cases (text_eq n x.name)) [
  | inl f ↦ absurd (ground (arith, e, f))
  | inr f ↦ (f, shift-suc (position n out) i (ground (arith, e, f)))
]

-- To put an entry at the place of its name leaves the names, and changes that entry only.
names-set_at :
    (i : ℕ) (s : LogicalServer) (out : List LogicalServer)
    → position s.name out ≡ some i
    → names (set_at i s out) ≡ names out
names-set_at i s [] e = cc
names-set_at zero s (x ∷ out) e =
    ap (λ n. n ∷ names out) (text_eq→eq s.name x.name (at_zero s.name x out e))
names-set_at (suc i) s (x ∷ out) e =
    ap (λ ns. x.name ∷ ns) (names-set_at i s out (at_suc s.name x out i e).1)

position-set_at :
    (n : Text) (i : ℕ) (s : LogicalServer) (out : List LogicalServer)
    → position s.name out ≡ some i
    → position n (set_at i s out) ≡ position n out
position-set_at n i s [] e = cc
position-set_at n zero s (x ∷ out) e =
    ground (arith, text_eq→eq s.name x.name (at_zero s.name x out e))
position-set_at n (suc i) s (x ∷ out) e =
    ap (λ o. if text_eq n x.name then some 0 else shift o)
      (position-set_at n i s out (at_suc s.name x out i e).1)

first-set_at :
    (n : Text) (i : ℕ) (s : LogicalServer) (out : List LogicalServer)
    → position s.name out ≡ some i
    → first n (set_at i s out) ≡ or (if text_eq n s.name then some s else none) (first n out)
first-set_at n i s [] e = cc
first-set_at n zero s (x ∷ out) e =
    ground (arith, text_eq→eq s.name x.name (at_zero s.name x out e))
first-set_at n (suc i) s (x ∷ out) e =
    let (f, g) = at_suc s.name x out i e in
    elim (Bool-cases (text_eq n s.name)) [
      | inl h ↦
          let f' : text_eq n x.name ≡ false = rw (text_eq→eq n s.name h) f in
          ground (arith, f', h, first-set_at n i s out g)
      | inr h ↦ ground (arith, h, first-set_at n i s out g)
    ]

-- What the loops keep.
abbrev IsMerged : Merged → Type 0
IsMerged o = IsIndex o × IsDistinct (names o.0)

append_one-IsDistinct :
    (out : List LogicalServer) (s : LogicalServer)
    → IsDistinct (names out)
    → elem s.name (names out) ≡ false
    → IsDistinct (names (out ++ (s ∷ [])))
append_one-IsDistinct [] s d e = (refl, tt)
append_one-IsDistinct (x ∷ out) s d e = (
  ground (arith, d.0, e, elem-append_one x.name out s, text_eq_sym x.name s.name),
  append_one-IsDistinct out s d.1 (ground (arith, e)),
)

or_end-shown : (o : Option ℕ) (i : ℕ) → or_end o false i ≡ o
or_end-shown none i = refl
or_end-shown (some j) i = refl

or_same :
    (n : Text) (s : LogicalServer) (out : List LogicalServer) (seen : List (Text × ℕ))
    → text_eq n s.name ≡ false
    → index_of n seen ≡ position n out
    → index_of n ((s.name, length out) ∷ seen) ≡ position n (out ++ (s ∷ []))
unfolding index_of
or_same n s out seen f m =
    rw (position-append n out s, f) (m ∙ sym (or_end-shown (position n out) (length out)))

append-IsMerged :
    (s : LogicalServer) (o : Merged)
    → IsMerged o
    → position s.name o.0 ≡ none
    → IsMerged (o.0 ++ (s ∷ []), (s.name, length o.0) ∷ o.1)
unfolding index_of
append-IsMerged s (out, seen) m e = (
  λ n. elim (Bool-cases (text_eq n s.name)) [
    | inl f ↦
        let e' : position n out ≡ none = rw (text_eq→eq n s.name f) e in
        ground (arith, f, e', position-append n out s)
    | inr f ↦ or_same n s out seen f (m.0 n)
  ],
  append_one-IsDistinct out s m.1 (elem-position s.name out e),
)

append_one-All :
    (s : LogicalServer) (out ss : List LogicalServer)
    → All (λ t. elem t.name (names out) ≡ false) ss
    → elem s.name (names ss) ≡ false
    → All (λ t. elem t.name (names (out ++ (s ∷ []))) ≡ false) ss
append_one-All s out [] a e = tt
append_one-All s out (t ∷ ss) a e = (
  ground (arith, a.0, e, elem-append_one t.name out s, text_eq_sym t.name s.name),
  append_one-All s out ss a.1 (ground (arith, e)),
)

add_standard-IsMerged :
    (ss : List LogicalServer) (o : Merged)
    → IsMerged o
    → All (λ s. elem s.name (names o.0) ≡ false) ss
    → IsDistinct (names ss)
    → IsMerged (add_standard ss o)
unfolding add_standard
add_standard-IsMerged [] o m a d = m
add_standard-IsMerged (s ∷ ss) o m a d =
    add_standard-IsMerged ss (o.0 ++ (s ∷ []), (s.name, length o.0) ∷ o.1)
      (append-IsMerged s o m (position-elem s.name o.0 a.0)) (append_one-All s o.0 ss a.1 d.0) d.1

add_standard-append : (ss : List LogicalServer) (o : Merged) → (add_standard ss o).0 ≡ o.0 ++ ss
unfolding add_standard
add_standard-append [] o = sym (append-nil o.0)
add_standard-append (s ∷ ss) o =
    add_standard-append ss (o.0 ++ (s ∷ []), (s.name, length o.0) ∷ o.1)
    ∙ append_assoc o.0 (s ∷ []) ss

none_in : (ss : List LogicalServer) → All (λ s. elem s.name (names []) ≡ false) ss
none_in [] = tt
none_in (s ∷ ss) = (refl, none_in ss)

-- What a merged list holds after the second loop.
abbrev Wins : List LogicalServer → Merged → Merged → Type 0
Wins ss o o' = IsMerged o' × ((n : Text) → first n o'.0 ≡ or (last n ss) (first n o.0))

or_assoc : (a b c : Option LogicalServer) → or a (or b c) ≡ or (or a b) c
or_assoc none b c = refl
or_assoc (some x) b c = refl

or_none : (a : Option LogicalServer) → or a none ≡ a
or_none none = refl
or_none (some x) = refl

append-first :
    (n : Text) (s : LogicalServer) (out : List LogicalServer)
    → position s.name out ≡ none
    → first n (out ++ (s ∷ [])) ≡ or (if text_eq n s.name then some s else none) (first n out)
append-first n s out e = elim (Bool-cases (text_eq n s.name)) [
  | inl f ↦
      let e' : position n out ≡ none = rw (text_eq→eq n s.name f) e in
      ground (arith, f, first-append n out s, first-position n out e')
  | inr f ↦ rw (first-append n out s, f) (or_none (first n out))
]

place-IsMerged : (s : LogicalServer) (o : Merged) → IsMerged o → IsMerged (place s o)
unfolding place
place-IsMerged s o m = elim (Option-cases (index_of s.name o.1)) [
  | inl e ↦ rw (place, e) (append-IsMerged s o m (sym (m.0 s.name) ∙ e))
  | inr (i, e) ↦
      let at = sym (m.0 s.name) ∙ e in
      rw (place, e)
        (λ n. m.0 n ∙ sym (position-set_at n i s o.0 at), rw (names-set_at i s o.0 at) m.1)
]

place-first :
    (n : Text) (s : LogicalServer) (o : Merged)
    → IsMerged o
    → first n (place s o).0 ≡ or (if text_eq n s.name then some s else none) (first n o.0)
unfolding place
place-first n s o m = elim (Option-cases (index_of s.name o.1)) [
  | inl e ↦ rw (place, e) (append-first n s o.0 (sym (m.0 s.name) ∙ e))
  | inr (i, e) ↦ rw (place, e) (first-set_at n i s o.0 (sym (m.0 s.name) ∙ e))
]

add_secure-Wins : (ss : List LogicalServer) (o : Merged) → IsMerged o → Wins ss o (add_secure ss o)
unfolding add_secure
add_secure-Wins [] o m = (m, λ n. refl)
add_secure-Wins (s ∷ ss) o m =
    let (m', wins) = add_secure-Wins ss (place s o) (place-IsMerged s o m) in
    (
      m',
      λ n.
          wins n
          ∙ ap (λ f. or (last n ss) f) (place-first n s o m)
          ∙ or_assoc (last n ss) (if text_eq n s.name then some s else none) (first n o.0),
    )

-- Where no two standard entries have the same name: the merged list has each name once, under the
-- name the last of its secure-core entries, or its standard entry where it has no other, and nothing
-- under a name of neither list.
pub merge_logicals-first :
    (standard secure_core : List LogicalServer)
    → IsDistinct (names standard)
    → let merged = merge_logicals standard secure_core in
      IsDistinct (names merged)
      × ((n : Text) → first n merged ≡ or (last n secure_core) (first n standard))
unfolding merge_logicals index_of
merge_logicals-first standard secure_core d =
    let o = add_standard standard ([], []) in
    let m = add_standard-IsMerged standard ([], []) (λ n. refl, tt) (none_in standard) d in
    let (m', wins) = add_secure-Wins secure_core o m in
    (
      m'.1,
      λ n.
          wins n
          ∙ ap (λ out. or (last n secure_core) (first n out))
              (add_standard-append standard ([], [])),
    )
