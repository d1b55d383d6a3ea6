-- ===== src/Util/Endpoint/Laws.antt =====
-- What an endpoint is parsed to.
use text.Mathlib.TextLemmas.{cons-append}
use cloudstack_csi_driver.Prelude.{
  String, Bool, List, [], ◌∷◌, ◌⊎◌, inl, inr, ◌≡◌, true, false, arith, Option-cases, Bool-cases,
  ◌<>◌, ap, string_dec,
}
use cloudstack_csi_driver.Prelude.Paths.{rendered, join, is_rooted, clean, join_slash}
use cloudstack_csi_driver.Prelude.Strings.{lowers_to}
use cloudstack_csi_driver.Prelude.Prog.{ok, err, Outcome-cases}
use cloudstack_csi_driver.Util.Endpoint.{Host, parse_endpoint, unix_endpoint, address}

rooted_slash : (s : String) → is_rooted ("/" <> s) ≡ true
rooted_slash s = ap is_rooted (cons-append _ String.[] s)

rendered-rooted : (b : Bool) (xs : List String) → b ≡ true → is_rooted (rendered b xs) ≡ true
unfolding rendered
rendered-rooted true xs e = rooted_slash (join_slash xs)
rendered-rooted false xs e = absurd cc

clean-rooted : (p : String) → is_rooted (clean ("/" <> p)) ≡ true
unfolding clean
clean-rooted p = rendered-rooted _ _ (rooted_slash p)

-- A path is rooted if the first element is the slash.
join-rooted : (s : String) → is_rooted (join ("/" ∷ s ∷ [])) ≡ true
unfolding join string_dec
join-rooted s = clean-rooted ("/" <> s)

module _ (H : Host) where
  -- A scheme and an address, and what was done to the files.
  pub data IsEndpoint (scheme addr : String) (s t : H.State) : Type 0 where
    tcp : scheme ≡ "tcp" → t ≡ s → IsEndpoint scheme addr s t
    unix :
        scheme ≡ "unix"
        → is_rooted addr ≡ true
        → (H.remove addr s ≡ ok tt t)
          ⊎ ((e : H.Error) × (H.remove addr s ≡ err e t) × (H.is_not_exist e ≡ true))
        → IsEndpoint scheme addr s t

  unix_endpoint-IsEndpoint :
      (path scheme addr : String) (s t : H.State)
      → is_rooted path ≡ true
      → unix_endpoint H path s ≡ ok (scheme, addr) t
      → IsEndpoint scheme addr s t
  unfolding unix_endpoint
  unix_endpoint-IsEndpoint path scheme addr s t r h = elim (Outcome-cases (H.remove path s)) [
    | inl (u, v, e) ↦ unix (ground arith) (ground arith) (inl (ground arith))
    | inr (x, v, e) ↦ elim (Bool-cases (H.is_not_exist x)) [
      | inl missing ↦ unix (ground arith) (ground arith) (inr (x, ground arith, missing))
      | inr other ↦ absurd (ground arith)
    ]
  ]

  -- Where parsing returns, it has done nothing for tcp; for unix it has removed the file of the
  -- address, which is absolute, or found that there is none; and there is no third scheme.
  pub parse_endpoint-IsEndpoint :
      (endpoint scheme addr : String) (s t : H.State)
      → parse_endpoint H endpoint s ≡ ok (scheme, addr) t
      → IsEndpoint scheme addr s t
  unfolding parse_endpoint
  parse_endpoint-IsEndpoint endpoint scheme addr s t h =
      elim (Option-cases (H.parse_url endpoint)) [
        | inl broken ↦ absurd (ground arith)
        | inr (u, e) ↦ elim (Bool-cases (lowers_to u.scheme "tcp")) [
          | inl is_tcp ↦ tcp (ground arith) (ground arith)
          | inr other ↦ elim (Bool-cases (lowers_to u.scheme "unix")) [
            | inl is_unix ↦
                unix_endpoint-IsEndpoint (join ("/" ∷ address H u ∷ [])) scheme addr s t
                  (join-rooted (address H u)) (ground arith)
            | inr third ↦ absurd (ground arith)
          ]
        ]
      ]
