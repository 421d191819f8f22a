-- ===== src/Provider/CyberGhost/Isolation.antt =====
-- Which files of credentials a pod reads.
use tundler.Base.{
  ℕ, zero, suc, ◌^◌, ◌<◌, ◌≡◌, ◌≢◌, refl, ap, inl, inr, Text, false, List, [], ◌∷◌, codes, text_eq,
  text_eq→eq, elem, All, Bool-cases, if◌then◌else◌,
}
use tundler.Base.Decimal.{decimal-injective}
use tundler.Provider.Machine.{Machine}
use tundler.Provider.Pods.{pod_name, pod_ordinal-pod_name}
use tundler.Provider.CyberGhost.{credential_file, get_credentials}

after : ℕ → Text → Text
after zero s = s
after (suc n) [] = []
after (suc n) (c ∷ s) = after n s

credential_file-injective :
    (n k : ℕ) (a b : Text) → credential_file n a ≡ credential_file k b → n ≡ k
unfolding credential_file after
credential_file-injective n k a b e =
    decimal-injective n k b'_' a b'_' b refl refl (ap (after 26) e)

credential_file-apart :
    (n k : ℕ) (a b : Text) → n ≢ k → text_eq (credential_file n a) (credential_file k b) ≡ false
credential_file-apart n k a b h =
    elim (Bool-cases (text_eq (credential_file n a) (credential_file k b))) [
      | inl e ↦ absurd (h (credential_file-injective n k a b (text_eq→eq _ _ e)))
      | inr e ↦ e
    ]

-- The machine of a pod, with the names of the files that were read, the latest first.
abbrev pub pod : {W : Type 0} → Machine W → Text → Machine (W × List Text)
pod m name = record {
  run = λ cmd args x. (let (r, w) = m.run cmd args x.0 in (r, (w, x.1)));
  getenv = λ v. if text_eq v (codes "POD_NAME") then name else m.getenv v;
  clock = λ x. (let (now, w) = m.clock x.0 in (now, (w, x.1)));
  sleep = λ d x. (m.sleep d x.0, x.1);
  wait = λ d x. (let (r, w) = m.wait d x.0 in (r, (w, x.1)));
  read_file = λ p x. (let (r, w) = m.read_file p x.0 in (r, (w, p ∷ x.1)));
  mkdir_all = λ p x. (let (r, w) = m.mkdir_all p x.0 in (r, (w, x.1)));
  write_file = λ p t x. (let (r, w) = m.write_file p t x.0 in (r, (w, x.1)));
  remove = λ p x. (m.remove p x.0, x.1);
  pick = λ n x. (let (r, w) = m.pick n x.0 in (r, (w, x.1)));
}

module _ {W : Type 0} (m : Machine W) where
  -- The files that a pod reads for its credentials.
  abbrev pub reads : Text → ℕ → W → List Text
  reads base n w = (get_credentials (pod m (pod_name base n)) (w, [])).1.1

  abbrev files : ℕ → List Text
  files n =
      credential_file n (codes "PASSWORD")
      ∷ credential_file n (codes "USERNAME")
      ∷ credential_file n (codes "KEY")
      ∷ credential_file n (codes "CERTIFICATE")
      ∷ []

  reads-files : (base : Text) (n : ℕ) (w : W) → n < 2 ^ 63 → reads base n w ≡ files n
  unfolding get_credentials
  reads-files base n w h = rw (reads, get_credentials, pod_ordinal-pod_name base n h) refl

  file-apart : (n k : ℕ) (a : Text) → n ≢ k → elem (credential_file n a) (files k) ≡ false
  file-apart n k a h =
      rw
        (
          credential_file-apart n k a (codes "PASSWORD") h,
          credential_file-apart n k a (codes "USERNAME") h,
          credential_file-apart n k a (codes "KEY") h,
          credential_file-apart n k a (codes "CERTIFICATE") h,
        )
        refl

  -- Two pods with different ordinals never read a file of credentials in common, whatever the names
  -- of their StatefulSets and the files are.
  pub reads-apart :
      (base base' : Text) (n k : ℕ) (w w' : W)
      → n < 2 ^ 63
      → k < 2 ^ 63
      → n ≢ k
      → All (λ file. elem file (reads base' k w') ≡ false) (reads base n w)
  reads-apart base base' n k w w' h h' d =
      rw (reads-files base n w h, reads-files base' k w' h')
        (
          file-apart n k (codes "PASSWORD") d,
          (
            file-apart n k (codes "USERNAME") d,
            (file-apart n k (codes "KEY") d, (file-apart n k (codes "CERTIFICATE") d, tt)),
          ),
        )
