-- ===== src/Updater/Emit.antt =====
-- The file that the job prints.
use tundler.Base.{
  ◌≡◌, ◌≢◌, refl, ap, inl, inr, Text, Bool, true, false, Option, none, some, List, [], ◌∷◌, ◌&&◌,
  codes, text_eq, All, All-append, Bool-cases, arith,
}
use tundler.Base.Sorting.{
  text_leb, text_leb_total, text_leb_trans, by_key_total, by_key_trans, sort, IsSorted, count,
  sort-count, sort-IsSorted, sort-All,
}
use tundler.Updater.{
  PhysicalServer, LogicalServer, OutputServer, is_skipped, physical, transform, by_place,
  emit_servers,
}

by_place_total : (s t : OutputServer) → by_place s t ≡ false → by_place t s ≡ true
by_place_total =
    by_key_total (λ s. s.country) _
      (by_key_total (λ s. s.city) (λ s t. text_leb s.hostname t.hostname)
        (λ s t. text_leb_total s.hostname t.hostname))

by_place_trans :
    (s t u : OutputServer) → by_place s t ≡ true → by_place t u ≡ true → by_place s u ≡ true
by_place_trans =
    by_key_trans (λ s. s.country) _
      (by_key_trans (λ s. s.city) (λ s t. text_leb s.hostname t.hostname)
        (λ s t u. text_leb_trans s.hostname t.hostname u.hostname))

-- What the result of the job means for what the API returned.
abbrev IsListed : List OutputServer → Option (List OutputServer) → Type 0
IsListed all none = all ≡ []
IsListed all (some file) =
    (file ≢ []) × IsSorted by_place file × ((p : OutputServer → Bool) → count p file ≡ count p all)

always : OutputServer → Bool
always s = true

listed_lem :
    (all : List OutputServer)
    → IsListed all (elim all as (λ _. Option (List OutputServer)) [
      | [] ↦ none
      | ◌∷◌ s ss ↦ some (sort by_place (s ∷ ss))
    ])
unfolding always
listed_lem [] = refl
listed_lem (s ∷ ss) = (
  λ e. ground (arith, sort-count by_place always (s ∷ ss), ap (λ file. count always file) e),
  sort-IsSorted by_place by_place_total by_place_trans (s ∷ ss),
  λ p. sort-count by_place p (s ∷ ss),
)

-- The job stops where no server is usable; else it prints a list that is not empty, in the order of
-- country, city and host name, of the same entries as `transform` gives, each as often.
emit_servers-IsListed :
    (logicals : List LogicalServer) → IsListed (transform logicals) (emit_servers logicals)
unfolding emit_servers
emit_servers-IsListed logicals = listed_lem (transform logicals)

abbrev pub has_no : List Text → Bool
has_no [] = true
has_no (x ∷ xs) = false

-- What every printed entry has: the transports, and a host name or an address.
abbrev pub IsEntry : OutputServer → Type 0
IsEntry s =
    (s.vpn ≡ codes "openvpn")
    × (s.tcp ≡ true)
    × (s.udp ≡ true)
    × ((text_eq s.hostname [] && has_no s.ips) ≡ false)

physical-IsEntry : (ls : LogicalServer) (pss : List PhysicalServer) → All IsEntry (physical ls pss)
unfolding physical
physical-IsEntry ls [] = tt
physical-IsEntry ls (ps ∷ pss) = elim (Bool-cases (is_skipped ps)) [
  | inl e ↦ rw e (physical-IsEntry ls pss)
  | inr e ↦ rw e ((refl, refl, refl, ground (arith, e)), physical-IsEntry ls pss)
]

transform-IsEntry : (logicals : List LogicalServer) → All IsEntry (transform logicals)
unfolding transform
transform-IsEntry [] = tt
transform-IsEntry (ls ∷ lss) =
    All-append IsEntry (physical ls ls.servers) (transform lss) (physical-IsEntry ls ls.servers)
      (transform-IsEntry lss)

-- A printed file.
abbrev pub IsFile : Option (List OutputServer) → Type 0
IsFile none = Unit
IsFile (some file) = All IsEntry file

file_lem :
    (all : List OutputServer)
    → All IsEntry all
    → IsFile (elim all as (λ _. Option (List OutputServer)) [
      | [] ↦ none
      | ◌∷◌ s ss ↦ some (sort by_place (s ∷ ss))
    ])
file_lem [] h = tt
file_lem (s ∷ ss) h = sort-All by_place IsEntry (s ∷ ss) h

pub emit_servers-IsFile : (logicals : List LogicalServer) → IsFile (emit_servers logicals)
unfolding emit_servers
emit_servers-IsFile logicals = file_lem (transform logicals) (transform-IsEntry logicals)
