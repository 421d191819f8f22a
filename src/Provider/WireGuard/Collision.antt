-- ===== src/Provider/WireGuard/Collision.antt =====
-- The interface of WireGuard on the host: `wg-quick up` refuses to start where there is one.
use tundler.Base.{
  ◌≡◌, refl, inl, inr, Text, Bool, true, false, not, ◌&&◌, ◌||◌, Option, none, some, List, [], ◌∷◌,
  codes, text_eq, Bool-cases, arith, if◌then◌else◌,
}
use tundler.Exec.{run_cmd}
use tundler.Provider.Machine.{same_args, Machine, is_none}
use tundler.Provider.WireGuard.{
  show_args, del_args, wire_guard_interface_present, cleanup_stale_wire_guard, start, take_down,
  is_wire_guard_connected, exit_ip,
}

-- The interface: whether it is there, and whether a start has met one.
pub record Link : Type 0 where
  pub present : Bool
  pub collided : Bool

abbrev first_is : Text → List Text → Bool
first_is word [] = false
first_is word (a ∷ as_) = text_eq a word

-- Whether a process works: `ip link show` works where the interface is there, `ip link del` only
-- there, `wg-quick up` only where it is not; for the rest the machine says.
abbrev result : Link → Text → List Text → Option Text → Option Text
result l cmd args err =
    if text_eq cmd (codes "ip") && same_args args show_args
    then (if l.present then none else some (codes "exit status 1"))
    else if text_eq cmd (codes "ip") && same_args args del_args && not l.present
        || text_eq cmd (codes "wg-quick") && first_is (codes "up") args && l.present
    then some (codes "exit status 1")
    else err

-- What a process makes of the interface: it is gone after an `ip link del` or a `wg-quick down` that
-- worked, and there after a `wg-quick up`, which also where it fails may leave it.
abbrev moved : Link → Text → List Text → Option Text → Link
moved l cmd args err =
    if text_eq cmd (codes "ip") && same_args args del_args
    then record l { present = not (is_none err) && l.present }
    else if text_eq cmd (codes "wg-quick") && first_is (codes "down") args
    then record l { present = not (is_none err) && l.present }
    else if text_eq cmd (codes "wg-quick") && first_is (codes "up") args
    then record { present = true; collided = l.collided || l.present }
    else l

-- A machine that keeps the interface.
abbrev pub host : {W : Type 0} → Machine W → Machine (W × Link)
host m = record {
  run = λ cmd args x.
      (let ((out, err), w) = m.run cmd args x.0 in
        ((out, result x.1 cmd args err), (w, moved x.1 cmd args err)));
  getenv = m.getenv;
  clock = λ x. (let (now, w) = m.clock x.0 in (now, (w, x.1)));
  sleep = λ d x. (m.sleep d x.0, x.1);
  wait = λ d x. (let (r, w) = m.wait d x.0 in (r, (w, x.1)));
  read_file = λ p x. (let (r, w) = m.read_file p x.0 in (r, (w, x.1)));
  mkdir_all = λ p x. (let (r, w) = m.mkdir_all p x.0 in (r, (w, x.1)));
  write_file = λ p t x. (let (r, w) = m.write_file p t x.0 in (r, (w, x.1)));
  remove = λ p x. (m.remove p x.0, x.1);
  pick = λ n x. (let (r, w) = m.pick n x.0 in (r, (w, x.1)));
}

module _ {W : Type 0} (m : Machine W) where
  -- `ip link del` works on an interface that is there.
  abbrev pub Deletes : Type 0
  Deletes = (w : W) → (m.run (codes "ip") del_args w).0.1 ≡ none

  cleanup-present :
      (path : Text) (x : W × Link)
      → Deletes
      → (cleanup_stale_wire_guard (host m) path x).1.present ≡ false
  unfolding cleanup_stale_wire_guard wire_guard_interface_present run_cmd
  cleanup-present path x h =
      let w₁ = (m.run (codes "ip") show_args x.0).1 in
      let ((out, err), w₂) = m.run (codes "wg-quick") (codes "down" ∷ path ∷ []) w₁ in
      elim (Bool-cases x.1.present) [ inl e ↦ rw (e, h w₂) refl | inr e ↦ rw e refl ]

  cleanup-collided :
      (path : Text) (x : W × Link)
      → (cleanup_stale_wire_guard (host m) path x).1.collided ≡ x.1.collided
  unfolding cleanup_stale_wire_guard wire_guard_interface_present run_cmd
  cleanup-collided path x = elim (Bool-cases x.1.present) [ inl e ↦ rw e refl | inr e ↦ rw e refl ]

  -- A start that met no interface before meets none, whatever an earlier run left.
  pub start-collided :
      (path config : Text) (x : W × Link)
      → Deletes
      → (start (host m) path config x).1.1.collided ≡ x.1.collided
  unfolding start run_cmd
  start-collided path config x h =
      let (err, w₁) = m.write_file path config x.0 in
      let y : W × Link = (w₁, x.1) in
      let gone = cleanup-present path y h in
      let same = cleanup-collided path y in
      elim (Bool-cases (is_none err)) [
        | inl e ↦ rw (e, gone) (ground (arith, same))
        | inr e ↦ rw e refl
      ]

  pub take_down-collided :
      (path : Text) (x : W × Link) → (take_down (host m) path x).1.collided ≡ x.1.collided
  unfolding take_down run_cmd
  take_down-collided path x = refl

  pub connected-collided :
      (x : W × Link) → (is_wire_guard_connected (host m) x).1.1.collided ≡ x.1.collided
  unfolding is_wire_guard_connected run_cmd
  connected-collided x = refl

  pub exit_ip-collided :
      (seconds : Text) (x : W × Link) → (exit_ip (host m) seconds x).1.1.collided ≡ x.1.collided
  unfolding exit_ip run_cmd
  exit_ip-collided seconds x = refl
