-- ===== src/Overlay/Network.antt =====
-- An overlay is there as a whole or not at all (overlay.go).
use iicpc.Prelude.{
  ◌≡◌, ◌∙◌, ◌⊎◌, inl, inr, refl, Bool, true, false, Option, none, some, [], ◌∷◌, arith, Bool-cases,
}
use iicpc.Artifact.{Text, same_text}
use iicpc.Artifact.Texts.{same_text_refl}
use iicpc.Overlay.{
  nad_name, NetworkPolicy, build_network_policy, Cluster, World, OverlayNetwork, or_default,
  set_nad, set_policy, create_policy, delete_nad, create_overlay, delete_overlay,
}

-- Nothing of the run is in the cluster.
abbrev pub IsClear : Text → Cluster → Type 0
IsClear run c = (c.nads (nad_name run) ≡ false) × (c.policies (nad_name run) ≡ none)

-- What is there under a name is as it was.
abbrev pub Keeps : Text → Cluster → Cluster → Type 0
Keeps n c d = (d.nads n ≡ c.nads n) × (d.policies n ≡ c.policies n)

-- The network of the run is there, with a policy that admits the two ranges and no other.
abbrev pub IsComplete : World → Text → Cluster → Type 0
IsComplete w run c =
    (c.nads (nad_name run) ≡ true)
    × (c.policies (nad_name run)
        ≡ some (record {
          selects_run = run;
          ingress =
              or_default w.bot_fleet_cidr "10.0.0.0/24"
              ∷ or_default w.telemetry_ingester_cidr "10.0.1.0/24"
              ∷ [];
        }))

abbrev pub is_created : Option OverlayNetwork → Bool
is_created none = false
is_created (some o) = true

set_nad-here : (name : Text) (there : Bool) (c : Cluster) → (set_nad name there c).nads name ≡ there
unfolding set_nad
set_nad-here name there c = rw (same_text_refl name) refl

set_policy-here :
    (name : Text) (p : Option NetworkPolicy) (c : Cluster) → (set_policy name p c).policies name ≡ p
unfolding set_policy
set_policy-here name p c = rw (same_text_refl name) refl

create_policy-here :
    (name : Text) (p : NetworkPolicy) (c : Cluster)
    → c.policies name ≡ none
    → create_policy name p c ≡ set_policy name (some p) c
unfolding create_policy
create_policy-here name p c h = rw (create_policy, h) refl

-- How CreateOverlay ends.
Ending : World → Text → Text → Cluster → Cluster × Option OverlayNetwork → Type 0
Ending w run n c o =
    (((is_created o.1 ≡ true) × IsComplete w run o.0)
      ⊎ ((is_created o.1 ≡ false) × IsClear run o.0))
    × Keeps n c o.0

create_overlay-Ending :
    (w : World) (run n : Text) (c : Cluster)
    → IsClear run c
    → w.nad_delete_fails ≡ false
    → same_text n (nad_name run) ≡ false
    → Ending w run n c (create_overlay w run c)
unfolding create_overlay build_network_policy delete_nad Ending set_nad set_policy
create_overlay-Ending w run n c clear deletes other = elim (Bool-cases w.nad_create_fails) [
  | inl fails ↦ rw (create_overlay, fails) (inr (refl, clear), (refl, refl))
  | inr attached ↦ elim (Bool-cases w.policy_create_fails) [
    | inl fails ↦
        rw (create_overlay, attached, fails, delete_nad, deletes)
          (
            inr (
              refl,
              (set_nad-here (nad_name run) false (set_nad (nad_name run) true c), clear.1),
            ),
            (ground (arith, other), refl),
          )
    | inr made ↦
        let policy =
          build_network_policy run (or_default w.bot_fleet_cidr "10.0.0.0/24")
            (or_default w.telemetry_ingester_cidr "10.0.1.0/24") in
        rw
          (
            create_overlay,
            attached,
            made,
            create_policy-here (nad_name run) policy (set_nad (nad_name run) true c) clear.1,
          )
          (
            inl (
              refl,
              (
                set_nad-here (nad_name run) true c,
                set_policy-here (nad_name run) (some policy) (set_nad (nad_name run) true c),
              ),
            ),
            (ground (arith, other), ground (arith, other)),
          )
  ]
]

delete_overlay-clears :
    (w : World) (run n : Text) (c : Cluster)
    → w.nad_delete_fails ≡ false
    → w.policy_delete_fails ≡ false
    → same_text n (nad_name run) ≡ false
    → ((delete_overlay w run c).1 ≡ true)
      × IsClear run (delete_overlay w run c).0
      × Keeps n c (delete_overlay w run c).0
unfolding delete_overlay delete_nad set_nad set_policy
delete_overlay-clears w run n c h k other =
    rw (delete_overlay, h, k)
      (
        refl,
        (
          set_nad-here (nad_name run) false c,
          set_policy-here (nad_name run) none (set_nad (nad_name run) false c),
        ),
        (ground (arith, other), ground (arith, other)),
      )

-- An overlay is made as a whole or not at all. For a run of which nothing is in the cluster, while
-- deletions work: CreateOverlay either succeeds, and both the attachment and the policy are there, the
-- policy for the pods of this run and admitting the addresses of the bots and of the telemetry alone;
-- or it fails, and nothing of the run is there. After DeleteOverlay, which succeeds, nothing of the
-- run is there either. What is there under another name is as it was throughout.
pub overlay-whole :
    (w v : World) (run n : Text) (c : Cluster)
    → IsClear run c
    → w.nad_delete_fails ≡ false
    → v.nad_delete_fails ≡ false
    → v.policy_delete_fails ≡ false
    → same_text n (nad_name run) ≡ false
    → let o = create_overlay w run c in
      let d = delete_overlay v run o.0 in
      (((is_created o.1 ≡ true) × IsComplete w run o.0)
        ⊎ ((is_created o.1 ≡ false) × IsClear run o.0))
      × (d.1 ≡ true)
      × IsClear run d.0
      × Keeps n c o.0
      × Keeps n c d.0
unfolding Ending
overlay-whole w v run n c clear h k l other =
    let o = create_overlay w run c in
    let (end, others) = create_overlay-Ending w run n c clear h other in
    let (done, gone, kept) = delete_overlay-clears v run n o.0 k l other in
    (end, done, gone, others, (kept.0 ∙ others.0, kept.1 ∙ others.1))
