-- ===== src/Contestants/Rows.antt =====
-- What the rows of a token hold after any calls (service.go, db.go).
use mathlib.Core.Bool.{or-false, or_assoc}
use iicpc.Prelude.{
  eq_refl, ℕ, ◌≡◌, ◌⊎◌, inl, inr, refl, sym, subst, ◌∙◌, Bool, true, false, not, ◌&&◌, ◌||◌, none,
  some, List, [], ◌∷◌, map, any, All, String, str_eq, eq_iff, if◌then◌else◌, arith, Bool-cases,
}
use iicpc.Artifact.{Text, same_text}
use iicpc.Artifact.Texts.{same_text_refl, same_text_eq}
use iicpc.Contestants.{
  Token, Tables, register_contestant, encode_to_string, new_token, insert_token,
  issue_token_with_id, revoke_row, revoke_token, lookup_token, Call, register, issue, revoke, serve,
  serve_all,
}

-- Of the rows, those with the digest are those with the identifier.
abbrev pub IsOwn : List ℕ → String → Token → Type 0
IsOwn hash id r = same_text r.token_hash hash ≡ str_eq r.id id

-- What the row with the digest holds.
abbrev pub Holds : List ℕ → String → Bool → Token → Type 0
Holds hash c b r =
    (same_text r.token_hash hash ≡ false)
    ⊎ ((r.contestant_id ≡ c) × (r.expires_at ≡ none) × (r.revoked ≡ b))

pub record Stands (hash : List ℕ) (id c : String) (b : Bool) (rs : List Token) : Type 0 where
  pub own : All (IsOwn hash id) rs
  pub holds : All (Holds hash c b) rs
  pub there : any (λ r. same_text r.token_hash hash) rs ≡ true

lookup_token-none :
    (now : ℕ) (hash : List ℕ) (c : String) (rs : List Token)
    → All (Holds hash c true) rs
    → lookup_token now hash rs ≡ none
unfolding lookup_token
lookup_token-none now hash c [] h = refl
lookup_token-none now hash c (r ∷ rs) (h, hs) =
    ground (arith, lookup_token-none now hash c rs hs, h)

lookup_token-some :
    (now : ℕ) (hash : List ℕ) (c : String) (rs : List Token)
    → All (Holds hash c false) rs
    → any (λ r. same_text r.token_hash hash) rs ≡ true
    → lookup_token now hash rs ≡ some c
unfolding lookup_token
lookup_token-some now hash c [] h t = cc
lookup_token-some now hash c (r ∷ rs) (h, hs) t = elim (Bool-cases (same_text r.token_hash hash)) [
  | inl e ↦ ground (arith, h, e)
  | inr e ↦ rw e (lookup_token-some now hash c rs hs (ground (arith, t, e)))
]

other_text : (a b x : Text) → same_text a x ≡ true → same_text a b ≡ false → same_text b x ≡ false
other_text a b x h k = elim (Bool-cases (same_text b x)) [
  | inl e ↦
      let same : a ≡ b = same_text_eq a x h ∙ sym (same_text_eq b x e) in
      absurd
        (ground (arith, subst (λ (y : Text). same_text a y ≡ false) (sym same) k, same_text_refl a))
  | inr e ↦ e
]

other_string : (a b x : String) → str_eq a x ≡ true → str_eq a b ≡ false → str_eq b x ≡ false
other_string a b x h k = ground (arith, eq_iff a x, eq_iff a b, eq_iff b x)

-- A row that no row stands in the way of is none with the digest or the identifier.
new_is_other :
    (hash : List ℕ) (id : String) (k : Token) (rs : List Token)
    → All (IsOwn hash id) rs
    → any (λ r. same_text r.token_hash hash) rs ≡ true
    → any (λ r. str_eq r.id k.id || same_text r.token_hash k.token_hash) rs ≡ false
    → (same_text k.token_hash hash ≡ false) × (str_eq k.id id ≡ false)
new_is_other hash id k [] o t f = cc
new_is_other hash id k (r ∷ rs) (o, os) t f = elim (Bool-cases (same_text r.token_hash hash)) [
  | inl e ↦ (
    other_text r.token_hash k.token_hash hash e (ground (arith, f)),
    other_string r.id k.id id (sym o ∙ e) (ground (arith, f)),
  )
  | inr e ↦ new_is_other hash id k rs os (ground (arith, t, e)) (ground (arith, f))
]

insert-Stands :
    (hash : List ℕ) (id c : String) (b : Bool) (k : Token) (rs : List Token)
    → Stands hash id c b rs
    → any (λ r. str_eq r.id k.id || same_text r.token_hash k.token_hash) rs ≡ false
    → Stands hash id c b (k ∷ rs)
insert-Stands hash id c b k rs s f =
    let (h, i) = new_is_other hash id k rs s.own s.there f in
    record { own = (h ∙ sym i, s.own); holds = (inl h, s.holds); there = rw h s.there }

-- A revocation of any identifier.
revoke-IsOwn :
    (hash : List ℕ) (id : String) (i : String) (rs : List Token)
    → All (IsOwn hash id) rs
    → All (IsOwn hash id) (map (revoke_row i) rs)
revoke-IsOwn hash id i [] o = tt
revoke-IsOwn hash id i (r ∷ rs) (o, os) = (ground (arith, o), revoke-IsOwn hash id i rs os)

revoke-Holds :
    (hash : List ℕ) (id c : String) (b : Bool) (i : String) (rs : List Token)
    → All (IsOwn hash id) rs
    → All (Holds hash c b) rs
    → All (Holds hash c (b || str_eq id i)) (map (revoke_row i) rs)
revoke-Holds hash id c b i [] o h = tt
revoke-Holds hash id c b i (r ∷ rs) (o, os) (h, hs) = (
  ground (arith, o, h, eq_iff r.id id, eq_iff r.id i, eq_iff id i),
  revoke-Holds hash id c b i rs os hs,
)

revoke-there :
    (hash : List ℕ) (i : String) (rs : List Token)
    → any (λ r. same_text r.token_hash hash) rs ≡ true
    → any (λ r. same_text r.token_hash hash) (map (revoke_row i) rs) ≡ true
revoke-there hash i [] h = h
revoke-there hash i (r ∷ rs) h = ground (arith, h, revoke-there hash i rs)

revoke-Stands :
    (hash : List ℕ) (id c : String) (b : Bool) (i : String) (rs : List Token)
    → Stands hash id c b rs
    → Stands hash id c (b || str_eq id i) (map (revoke_row i) rs)
revoke-Stands hash id c b i rs s = record {
  own = revoke-IsOwn hash id i rs s.own;
  holds = revoke-Holds hash id c b i rs s.own s.holds;
  there = revoke-there hash i rs s.there;
}

-- The call revokes the token.
abbrev pub revokes : String → Call → Bool
revokes id (register fails i handle email) = false
revokes id (issue fails i bytes contestant) = false
revokes id (revoke fails i) = not fails && str_eq id i

register-tokens :
    (fails : Bool) (id handle email : String) (t : Tables)
    → (register_contestant fails id handle email t).0.tokens ≡ t.tokens
unfolding register_contestant
register-tokens fails id handle email t = ground arith

insert_token-Stands :
    (hash : List ℕ) (id c : String) (b fails : Bool) (k : Token) (t : Tables)
    → Stands hash id c b t.tokens
    → Stands hash id c b (insert_token fails k t).0.tokens
unfolding insert_token
insert_token-Stands hash id c b fails k t s =
    elim (Bool-cases (
      fails
      || any (λ r. str_eq r.id k.id || same_text r.token_hash k.token_hash) t.tokens
      || not (any (λ c. str_eq c.id k.contestant_id) t.contestants))) [
        | inl e ↦ rw e s
        | inr e ↦ rw e (insert-Stands hash id c b k t.tokens s (ground (arith, e)))
      ]

serve-Stands :
    (sha256 : List ℕ → List ℕ) (hash : List ℕ) (id c : String) (b : Bool) (call : Call) (t : Tables)
    → Stands hash id c b t.tokens
    → Stands hash id c (b || revokes id call) (serve sha256 call t).tokens
unfolding serve issue_token_with_id revoke_token
serve-Stands sha256 hash id c b (register fails i handle email) t s =
    rw (register-tokens fails i handle email t, or-false b) s
serve-Stands sha256 hash id c b (issue fails i none contestant) t s = rw (or-false b) s
serve-Stands sha256 hash id c b (issue fails i (some bytes) contestant) t s = rw (or-false b) (
    insert_token-Stands hash id c b fails (new_token i contestant (sha256 (encode_to_string bytes)))
      t s)
serve-Stands sha256 hash id c b (revoke true i) t s = rw (or-false b) s
serve-Stands sha256 hash id c b (revoke false i) t s = revoke-Stands hash id c b i t.tokens s

pub serve_all-Stands :
    (sha256 : List ℕ → List ℕ) (hash : List ℕ) (id c : String) (b : Bool) (cs : List Call)
    (t : Tables)
    → Stands hash id c b t.tokens
    → Stands hash id c (b || any (revokes id) cs) (serve_all sha256 cs t).tokens
unfolding serve_all
serve_all-Stands sha256 hash id c b [] t s = rw (or-false b) s
serve_all-Stands sha256 hash id c b (call ∷ cs) t s =
    rw⁻¹ (or_assoc b (revokes id call) (any (revokes id) cs)) (
      serve_all-Stands sha256 hash id c (b || revokes id call) cs (serve sha256 call t)
        (serve-Stands sha256 hash id c b call t s))

pub lookup-Stands :
    (now : ℕ) (hash : List ℕ) (id c : String) (b : Bool) (rs : List Token)
    → Stands hash id c b rs
    → lookup_token now hash rs ≡ (if b then none else some c)
lookup-Stands now hash id c true rs s = lookup_token-none now hash c rs s.holds
lookup-Stands now hash id c false rs s = lookup_token-some now hash c rs s.holds s.there

-- The row that is inserted stands where no row has its identifier or its digest.
first-IsOwn :
    (hash : List ℕ) (id : String) (rs : List Token)
    → any (λ r. str_eq r.id id || same_text r.token_hash hash) rs ≡ false
    → All (IsOwn hash id) rs × All (λ r. same_text r.token_hash hash ≡ false) rs
first-IsOwn hash id [] f = (tt, tt)
first-IsOwn hash id (r ∷ rs) f =
    let (os, hs) = first-IsOwn hash id rs (ground (arith, f)) in
    ((ground (arith, f), os), (ground (arith, f), hs))

first-Holds :
    (hash : List ℕ) (c : String) (rs : List Token)
    → All (λ r. same_text r.token_hash hash ≡ false) rs
    → All (Holds hash c false) rs
first-Holds hash c [] h = tt
first-Holds hash c (r ∷ rs) (h, hs) = (inl h, first-Holds hash c rs hs)

pub insert_token-done :
    (fails : Bool) (id c : String) (hash : List ℕ) (t : Tables)
    → (insert_token fails (new_token id c hash) t).1 ≡ true
    → Stands hash id c false (insert_token fails (new_token id c hash) t).0.tokens
unfolding insert_token
insert_token-done fails id c hash t h =
    elim (Bool-cases (
      fails
      || any (λ r. str_eq r.id id || same_text r.token_hash hash) t.tokens
      || not (any (λ k. str_eq k.id c) t.contestants))) [
        | inl e ↦ absurd (ground (arith, h, e))
        | inr e ↦
            let (os, hs) = first-IsOwn hash id t.tokens (ground (arith, e)) in
            rw e (record {
              own = (same_text_refl hash ∙ sym (eq_refl id), os);
              holds = (inr (refl, refl, refl), first-Holds hash c t.tokens hs);
              there = rw (same_text_refl hash) refl;
            })
      ]
