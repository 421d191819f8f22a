-- ===== src/Provider/Proton/Emitted.antt =====
-- What the plugin makes of the file that cmd/proton-updater prints.
use tundler.Base.{
  ◌≡◌, refl, ap, inr, Text, Bool, true, false, not, Option, none, some, List, [], ◌∷◌, codes,
  text_eq, trim_space, trim_left, All, arith,
}
use mathlib.Core.Path.{subst}
use tundler.Updater.{LogicalServer, OutputServer, emit_servers}
use tundler.Updater.Emit.{IsEntry, IsFile, emit_servers-IsFile}
use tundler.Provider.Machine.{Machine}
use tundler.Provider.OpenVpn.{matching}
use tundler.Provider.OpenVpn.Names.{matching_same}
use tundler.Provider.Proton.{
  Catalog, keeps, kept, mask, proto, required_feature_mask, load_embedded_servers, fetch,
  fetch_servers, servers_file_path,
}

abbrev pub has_hostname : OutputServer → Bool
has_hostname s = not (text_eq s.hostname [])

keeps-has_hostname : (p : Text) (s : OutputServer) → IsEntry s → keeps 0 p s ≡ has_hostname s
keeps-has_hostname p s e =
    let v : text_eq s.vpn (codes "openvpn") ≡ true = rw (e.0) in ground (arith, v, e)

keeps-All :
    (p : Text) (ss : List OutputServer)
    → All IsEntry ss
    → All (λ s. keeps 0 p s ≡ has_hostname s) ss
keeps-All p [] h = tt
keeps-All p (s ∷ ss) h = (keeps-has_hostname p s h.0, keeps-All p ss h.1)

abbrev pub no_servers : List OutputServer → Bool
no_servers [] = true
no_servers (s ∷ ss) = false

abbrev pub fresh : Catalog
fresh = record { ok = false; servers = []; failed = false; embedded = none }

kept-servers :
    (ss : List OutputServer) (c : Catalog)
    → c.servers ≡ []
    → c.failed ≡ false
    → ((kept ss c).servers ≡ ss) × ((kept ss c).failed ≡ no_servers ss)
kept-servers [] c e f = (e, refl)
kept-servers (s ∷ ss) c e f = (refl, f)

module _ {W : Type 0} (m : Machine W) (parse : Text → Option (List OutputServer)) where
  mask-zero : m.getenv (codes "PROTON_FEATURE_FILTER") ≡ [] → mask m parse ≡ 0
  unfolding required_feature_mask trim_space trim_left
  mask-zero e = rw e

  load-fresh :
      (text : Text) (w : W)
      → (m.read_file (servers_file_path m parse) w).0 ≡ inr text
      → load_embedded_servers m parse (fresh, w) ≡ (
        some text,
        (record fresh { embedded = some text }, (m.read_file (servers_file_path m parse) w).1),
      )
  unfolding load_embedded_servers
  load-fresh text w read = rw (load_embedded_servers, read)

  -- Where no feature is asked for, and the catalog is a file that the job printed: the first fetch
  -- keeps, whatever the protocol, the entries of the file that have a host name, in its order, and
  -- fails where there are none.
  pub fetch_servers-emit_servers :
      (logicals : List LogicalServer) (file : List OutputServer) (text : Text) (w : W)
      → emit_servers logicals ≡ some file
      → m.getenv (codes "PROTON_FEATURE_FILTER") ≡ []
      → (m.read_file (servers_file_path m parse) w).0 ≡ inr text
      → parse text ≡ some file
      → let ((servers, failed), cw) = fetch_servers m parse (fresh, w) in
        (servers ≡ matching has_hostname file) × (failed ≡ no_servers (matching has_hostname file))
  unfolding fetch_servers fetch load_embedded_servers
  fetch_servers-emit_servers logicals file text w printed filter read parses =
      let h = subst IsFile printed (emit_servers-IsFile logicals) in
      let same =
        matching_same (keeps 0 (proto m parse)) has_hostname file
          (keeps-All (proto m parse) file h) in
      let k =
        kept-servers (matching has_hostname file) (record fresh { embedded = some text }) refl
          refl in
      let l = load-fresh text w read in
      rw (fetch_servers, fetch, ap (λ r. r.0) l, ap (λ r. r.1.0) l, parses, mask-zero filter, same)
        k
