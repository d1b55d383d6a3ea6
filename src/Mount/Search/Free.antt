-- ===== src/Mount/Search/Free.antt =====
-- A device that the loops over the letters take, in pkg/mount/mount.go.
use cloudstack_csi_driver.Prelude.{
  ◌/◌, ◌%◌, ◌^◌, codes, ℕ, String, true, false, [], ◌∷◌, ◌⊎◌, inl, inr, ◌≡◌, Bool-cases, arith,
}
use cloudstack_csi_driver.Prelude.Prog.{ok, err, Outcome-cases}
use cloudstack_csi_driver.Prelude.Int.{ℤ}
use cloudstack_csi_driver.Prelude.Maps.{Map}
use cloudstack_csi_driver.Prelude.Strings.{contains}
use cloudstack_csi_driver.Mount.Os.{Os}
use cloudstack_csi_driver.Mount.Device.{
  verify_device, is_block_device, get_block_size_bytes, is_device_mounted, get_device_properties,
}
use cloudstack_csi_driver.Mount.Search.{usable}

module _ (O : Os) where
  -- What the commands answered of a device, one after the other: it is there, its mode is that of a
  -- block device, its size was printed, no line of /proc/mounts has it, and udevadm knows it.
  pub record IsFree (p : String) (t : O.State) : Type 0 where
    pub s₀ : O.State
    pub s₁ : O.State
    pub s₂ : O.State
    pub s₃ : O.State
    pub s₄ : O.State
    pub there : O.stat p s₀ ≡ ok tt s₁
    pub mode : ℕ
    pub has_mode : O.stat_mode p s₁ ≡ ok mode s₂
    pub is_block : (mode / 2 ^ 12) % 16 ≡ 6
    pub size : String
    pub has_size : O.output "blockdev" ("--getsize64" ∷ p ∷ []) s₂ ≡ ok size s₃
    pub not_mounted :
        (O.output "grep" (p ∷ "/proc/mounts" ∷ []) s₃ ≡ ok "" s₄)
        ⊎ ((e : O.Error) × (O.output "grep" (p ∷ "/proc/mounts" ∷ []) s₃ ≡ err e s₄)
            × (contains (codes "exit status 1") (codes (O.error_text e)) ≡ true))
    pub properties : String
    pub has_properties :
        O.output "udevadm" ("info" ∷ "--query=property" ∷ p ∷ []) s₄ ≡ ok properties t

  sized :
      (p : String) (s t : O.State) (n : ℤ)
      → get_block_size_bytes O p s ≡ ok n t
      → (out : String) × (O.output "blockdev" ("--getsize64" ∷ p ∷ []) s ≡ ok out t)
  unfolding get_block_size_bytes
  sized p s t n h = elim (Outcome-cases (O.output "blockdev" ("--getsize64" ∷ p ∷ []) s)) [
    | inr (x, u, e) ↦ absurd (ground arith)
    | inl (out, u, e) ↦ (out, ground arith)
  ]

  unmounted_lem :
      (p : String) (s t : O.State)
      → is_device_mounted O p s ≡ ok false t
      → (O.output "grep" (p ∷ "/proc/mounts" ∷ []) s ≡ ok "" t)
        ⊎ ((e : O.Error) × (O.output "grep" (p ∷ "/proc/mounts" ∷ []) s ≡ err e t)
            × (contains (codes "exit status 1") (codes (O.error_text e)) ≡ true))
  unfolding is_device_mounted
  unmounted_lem p s t h = elim (Outcome-cases (O.output "grep" (p ∷ "/proc/mounts" ∷ []) s)) [
    | inl (out, u, e) ↦ inl (ground arith)
    | inr (x, u, e) ↦
        elim (Bool-cases (contains (codes "exit status 1") (codes (O.error_text x)))) [
          | inl one ↦ inr (x, ground arith, one)
          | inr other ↦ absurd (ground arith)
        ]
  ]

  known :
      (p : String) (s t : O.State) (props : Map String)
      → get_device_properties O p s ≡ ok props t
      → (out : String) × (O.output "udevadm" ("info" ∷ "--query=property" ∷ p ∷ []) s ≡ ok out t)
  unfolding get_device_properties
  known p s t props h =
      elim (Outcome-cases (O.output "udevadm" ("info" ∷ "--query=property" ∷ p ∷ []) s)) [
        | inr (x, u, e) ↦ absurd (ground arith)
        | inl (out, u, e) ↦ (out, ground arith)
      ]

  block_lem :
      (p : String) (s t : O.State)
      → is_block_device O p s ≡ ok true t
      → (mode : ℕ) × (O.stat_mode p s ≡ ok mode t) × ((mode / 2 ^ 12) % 16 ≡ 6)
  unfolding is_block_device
  block_lem p s t h = elim (Outcome-cases (O.stat_mode p s)) [
    | inr (x, u, e) ↦ absurd (ground arith)
    | inl (mode, u, e) ↦ (mode, ground arith, ground arith)
  ]

  -- The three commands of verifyDevice.
  verified_lem :
      (p v : String) (s t : O.State)
      → verify_device O p v s ≡ ok true t
      → (n : ℤ) × (u₁ : O.State) × (u₂ : O.State) × (props : Map String) × (get_block_size_bytes O p
            s
          ≡ ok n u₁)
        × (is_device_mounted O p u₁ ≡ ok false u₂)
        × (get_device_properties O p u₂ ≡ ok props t)
  unfolding verify_device
  verified_lem p v s t h = elim (Outcome-cases (get_block_size_bytes O p s)) [
    | inr (x, u, e) ↦ absurd (ground arith)
    | inl (n, u, e) ↦ elim (Outcome-cases (is_device_mounted O p u)) [
      | inr (x, w, f) ↦ absurd (ground arith)
      | inl (true, w, f) ↦ absurd (ground arith)
      | inl (false, w, f) ↦ elim (Outcome-cases (get_device_properties O p w)) [
        | inr (x, z, g) ↦ absurd (ground arith)
        | inl (props, z, g) ↦ (n, u, w, props, e, f, ground arith)
      ]
    ]
  ]

  pub usable-IsFree : (p v : String) (s t : O.State) → usable O p v s ≡ ok true t → IsFree p t
  unfolding usable
  usable-IsFree p v s t h = elim (Outcome-cases (O.stat p s)) [
    | inr (x, u, e) ↦ absurd (ground arith)
    | inl (_, u, e) ↦ elim (Outcome-cases (is_block_device O p u)) [
      | inr (x, w, f) ↦ absurd (ground arith)
      | inl (false, w, f) ↦ absurd (ground arith)
      | inl (true, w, f) ↦
          let (mode, has_mode, is_block) = block_lem p u w f in
          let (n, u₁, u₂, props, sizes, mounted, props_of) = verified_lem p v w t (ground arith) in
          let (size, has_size) = sized p w u₁ n sizes in
          let (out, has_out) = known p u₂ t props props_of in
          record {
            s₀ = s;
            s₁ = u;
            s₂ = w;
            s₃ = u₁;
            s₄ = u₂;
            there = e;
            mode = mode;
            has_mode = has_mode;
            is_block = is_block;
            size = size;
            has_size = has_size;
            not_mounted = unmounted_lem p u₁ u₂ mounted;
            properties = out;
            has_properties = has_out;
          }
    ]
  ]
