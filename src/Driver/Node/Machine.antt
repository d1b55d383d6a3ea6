-- ===== src/Driver/Node/Machine.antt =====
-- The mounter of pkg/mount/mount.go does to the mounts what the node service relies on.
use cloudstack_csi_driver.Prelude.{ℕ, zero, suc, String, false, ◌=?◌, ◌≡◌, ◌≢◌, arith, inl, inr}
use cloudstack_csi_driver.Prelude.Int.{pos}
use cloudstack_csi_driver.Prelude.Prog.{ok, err, Prog, Outcome-cases}
use cloudstack_csi_driver.Mount.Os.{Os, sys}
use cloudstack_csi_driver.Mount.Mounts.{Mounts, Still}
use cloudstack_csi_driver.Mount.Mounts.Search.{get_device_path-Still}
use cloudstack_csi_driver.Mount.Search.{get_device_path}
use cloudstack_csi_driver.Mount.Search.Laws.{Appears, get_device_path_iff, now, later}
use cloudstack_csi_driver.Mount.Files.{
  make_dir, unstage, unpublish, get_device_name, path_exists, resize, need_resize,
}
use cloudstack_csi_driver.Mount.System.{mounter}
use cloudstack_csi_driver.Driver.Node.Table.{Table, Keeps}

Appears-named :
    (O : Os) (v : String) (n : ℕ) (s t : O.State) (p : String)
    → Appears O v n s p t
    → (p =? "") ≡ false
Appears-named O v zero s t p (now e ne) = ne
Appears-named O v (suc n) s t p (later {u = u} e a) = Appears-named O v n _ t p a

module _ (O : Os) (T : Mounts O) where
  -- A program that leaves the mounts where it ends, and where it fails.
  pub Still-Keeps : {E A : Type 0} (m : Prog E O.State A) → Still T.at m → Keeps T.at m
  Still-Keeps m still s t a path h = ground (arith, still s path)

  pub Still-fails :
      {E A : Type 0} (m : Prog E O.State A) (s t : O.State) (e : E) (path : String)
      → Still T.at m
      → m s ≡ err e t
      → T.at t path ≡ T.at s path
  Still-fails m s t e path still h = ground (arith, still s path)

  -- The same for a call of the system.
  pub sys-Still :
      {A : Type 0} (m : Prog O.Error O.State A) → Still T.at m → Still T.at (sys {O = O} m)
  sys-Still m still s path = elim (Outcome-cases (m s)) [
    | inl (a, t, e) ↦ ground (arith, still s path)
    | inr (x, t, e) ↦ ground (arith, still s path)
  ]

  pub sys-ok :
      {A : Type 0} (m : Prog O.Error O.State A) (s t : O.State) (a : A)
      → sys {O = O} m s ≡ ok a t
      → m s ≡ ok a t
  sys-ok m s t a h = elim (Outcome-cases (m s)) [
    | inl (b, u, e) ↦ ground arith
    | inr (x, u, e) ↦ absurd (ground arith)
  ]

  pub make_dir-Still : (path : String) → Still T.at (make_dir O path)
  unfolding make_dir
  make_dir-Still dir s path = elim (Outcome-cases (O.mkdir_all dir s)) [
    | inl (a, t, e) ↦ ground (arith, T.mkdir_all dir s path)
    | inr (x, t, e) ↦ ground (arith, T.mkdir_all dir s path)
  ]

  pub device_named :
      (v : String) (s t : O.State) (device : String)
      → get_device_path O v s ≡ ok device t
      → device ≢ ""
  device_named v s t device h same =
      let (n, below, a) = (get_device_path_iff O v s t device).0.0 h in
      absurd (ground (arith, Appears-named O v n s t device a))

  unfoldable pub mounter-Table : Table (mounter O)
  unfolding get_device_name path_exists resize need_resize unpublish unstage
  mounter-Table = record {
    at = T.at;
    resolve = T.resolve;
    real = T.real;
    device_named = device_named;
    keeps_device = λ v. Still-Keeps (get_device_path O v) (get_device_path-Still O T v);
    keeps_exists =
        λ p. Still-Keeps (path_exists O p) (sys-Still (O.mount_path_exists p) (T.path_exists p));
    keeps_make_dir = λ p. Still-Keeps (make_dir O p) (make_dir-Still p);
    keeps_name = λ p.
        Still-Keeps (get_device_name O p)
          (sys-Still (O.get_device_name_from_mount p) (T.device_name p));
    keeps_need =
        λ d p. Still-Keeps (need_resize O d p) (sys-Still (O.need_resize d p) (T.need_resize d p));
    keeps_resize = λ d p. Still-Keeps (resize O d p) (sys-Still (O.resize d p) (T.resize d p));
    device_at = λ p s t device refs h.
        T.device_at p s t device refs
          (sys-ok (O.get_device_name_from_mount p) s t (device, refs) h);
    nothing_at = λ p s t device h.
        T.nothing_at p s t device (sys-ok (O.get_device_name_from_mount p) s t (device, pos 0) h);
    formats = λ source target fs options s t p h.
        T.formats source target fs options s t p
          (sys-ok (O.format_and_mount source target fs options) s t tt h);
    unstages =
        λ target s t p h. T.cleans_up target s t p (sys-ok (O.cleanup_mount_point target) s t tt h);
    keeps_likely = λ p.
        Still-Keeps (sys {O = O} (O.is_likely_not_mount_point p))
          (sys-Still (O.is_likely_not_mount_point p) (T.likely p));
    keeps_failed_likely = λ target s t e p h.
        Still-fails (sys {O = O} (O.is_likely_not_mount_point target)) s t e p
          (sys-Still (O.is_likely_not_mount_point target) (T.likely target)) h;
    keeps_failed_exists = λ target s t e p h.
        Still-fails (path_exists O target) s t e p
          (sys-Still (O.mount_path_exists target) (T.path_exists target)) h;
    mount_point_at =
        λ p s t h. T.mount_point_at p s t (sys-ok (O.is_likely_not_mount_point p) s t false h);
    binds = λ source target fs options s t device p h.
        T.binds source target fs options s t device p
          (sys-ok (O.mount source target fs options) s t tt h);
    unpublishes =
        λ target s t p h. T.cleans_up target s t p (sys-ok (O.cleanup_mount_point target) s t tt h);
  }
