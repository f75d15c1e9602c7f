-- ===== src/SandboxServer/Hashes.antt =====
-- What the hash of a run offers (registry.go).
use iicpc.Prelude.Map.{get, put, IsMap, get-put, put-IsMap}
use iicpc.Prelude.{
  ◌≡◌, refl, subst, Bool, true, false, ◌&&◌, Option, none, some, List, [], ◌∷◌, count, All, String,
  str_eq, eq_iff, if◌then◌else◌, arith, Bool-cases, inl, inr,
}
use iicpc.Sandbox.{EndpointInfo}
use iicpc.SandboxServer.{Hash, put_all, is_available}

-- Whether a hash has a protocol as available.
abbrev avail_entry : Option EndpointInfo → Bool
avail_entry none = false
avail_entry (some ep) = is_available ep

abbrev pub avail_at : Hash → String → Bool
avail_at h p = avail_entry (get h p)

pub avail-put :
    (h : Hash) (q p : String) (ep : EndpointInfo)
    → avail_at (put h q ep) p ≡ (if str_eq q p then is_available ep else avail_at h p)
avail-put h q p ep = rw (get-put h q p ep) (ground arith)

-- A hash with one entry for each protocol, each under its own protocol.
abbrev pub IsKeyed : Hash → Type 0
IsKeyed h = IsMap h × All (λ e. e.0 ≡ e.1.protocol) h

put-keys :
    (h : Hash) (ep : EndpointInfo)
    → All (λ (e : String × EndpointInfo). e.0 ≡ e.1.protocol) h
    → All (λ (e : String × EndpointInfo). e.0 ≡ e.1.protocol) (put h ep.protocol ep)
unfolding put
put-keys [] ep h = (refl, tt)
put-keys (e ∷ m) ep (h, hs) = elim (Bool-cases (str_eq e.0 ep.protocol)) [
  | inl s ↦ rw s (refl, hs)
  | inr s ↦ rw s (h, put-keys m ep hs)
]

pub put-IsKeyed : (h : Hash) (ep : EndpointInfo) → IsKeyed h → IsKeyed (put h ep.protocol ep)
put-IsKeyed h ep k = (put-IsMap h ep.protocol ep k.0, put-keys h ep k.1)

pub put_all-IsKeyed : (eps : List EndpointInfo) (h : Hash) → IsKeyed h → IsKeyed (put_all eps h)
put_all-IsKeyed [] h k = k
put_all-IsKeyed (ep ∷ eps) h k = put_all-IsKeyed eps (put h ep.protocol ep) (put-IsKeyed h ep k)

-- How often a protocol is among the entries that are available.
abbrev pub offers : String → String × EndpointInfo → Bool
offers p e = is_available e.1 && str_eq e.1.protocol p

count-absent :
    (h : Hash) (p : String)
    → All (λ e. e.0 ≡ e.1.protocol) h
    → get h p ≡ none
    → count (offers p) h ≡ 0
unfolding get
count-absent [] p k n = refl
count-absent (e ∷ m) p (k, ks) n = elim (Bool-cases (str_eq e.0 p)) [
  | inl s ↦ absurd (ground (arith, n, s))
  | inr s ↦ ground (arith, n, s, k, count-absent m p ks)
]

pub count-offers :
    (h : Hash) (p : String) → IsKeyed h → count (offers p) h ≡ (if avail_at h p then 1 else 0)
unfolding get
count-offers [] p k = refl
count-offers (e ∷ m) p ((n, ms), (k, ks)) = elim (Bool-cases (str_eq e.0 p)) [
  | inl s ↦
      let absent : count (offers p) m ≡ 0 =
        count-absent m p ks (subst (λ (q : String). get m q ≡ none) ((eq_iff e.0 p).0 s) n) in
      let own : str_eq e.1.protocol p ≡ true = subst (λ (q : String). str_eq q p ≡ true) k s in
      ground (arith, s, own, absent)
  | inr s ↦
      let other : str_eq e.1.protocol p ≡ false = subst (λ (q : String). str_eq q p ≡ false) k s in
      ground (arith, s, other, count-offers m p (ms, ks))
]
