-- ===== src/Fleet/Release.antt =====
-- The store of the fleets, and what the release of a fleet leaves (fleet.go, provisioner.go).
use iicpc.Prelude.{
  ℕ, ◌≡◌, inl, inr, refl, ap, ◌∙◌, Bool, true, false, not, ◌&&◌, some, List, [], ◌∷◌, ◌++◌, map,
  arith, if◌then◌else◌, Bool-cases, filter, any, All,
}
use iicpc.Artifact.Texts.{same_text_refl, same_text_eq}
use iicpc.Artifact.{Text, same_text}
use iicpc.Scheduler.{BotAssignment}
use iicpc.Fleet.{
  FleetRecord, FleetStore, set_record, change_record, Pod, build_bot_pod, World, delete_pods,
  pod_name,
}

-- What the store holds after an operation on a record that is there.
pub changed :
    (run : Text) (f : FleetRecord → FleetRecord) (s : FleetStore) (r : FleetRecord)
    → s run ≡ some r
    → change_record run f s run ≡ some (f r)
unfolding change_record set_record
changed run f s r h = rw (change_record, h, set_record, same_text_refl run) refl

module _ {ℓ} {A : Type ℓ} where
  filter-filter :
      (p q : A → Bool) (xs : List A) → filter p (filter q xs) ≡ filter (λ x. q x && p x) xs
  filter-filter p q [] = refl
  filter-filter p q (x ∷ xs) = elim (Bool-cases (q x)) [
    | inr out ↦ rw out (filter-filter p q xs)
    | inl inside ↦ elim (Bool-cases (p x)) [
      | inl kept ↦ rw (inside, kept) (ap (λ ys. x ∷ ys) (filter-filter p q xs))
      | inr dropped ↦ rw (inside, dropped) (filter-filter p q xs)
    ]
  ]

  filter-cong : (p q : A → Bool) (xs : List A) → ((x : A) → p x ≡ q x) → filter p xs ≡ filter q xs
  filter-cong p q [] h = refl
  filter-cong p q (x ∷ xs) h =
      rw (h x) (ap (λ ys. if q x then x ∷ ys else ys) (filter-cong p q xs h))

  pub filter-append :
      (p : A → Bool) (xs ys : List A) → filter p (xs ++ ys) ≡ filter p xs ++ filter p ys
  filter-append p [] ys = refl
  filter-append p (x ∷ xs) ys = ground (arith, filter-append p xs ys)

-- A pod stays if none of the names is its own, or it cannot be deleted.
abbrev pub is_left : World → List Text → Pod → Bool
is_left w names p = not (any (same_text p.name) names && not (w.delete_fails p.name))

left_step :
    (w : World) (name : Text) (names : List Text) (p : Pod)
    → w.delete_fails name ≡ false
    → (not (same_text p.name name) && is_left w names p) ≡ is_left w (name ∷ names) p
left_step w name names p h = elim (Bool-cases (same_text p.name name)) [
  | inr other ↦ rw other refl
  | inl same ↦ rw (same, ap w.delete_fails (same_text_eq p.name name same) ∙ h) refl
]

left_undeleted :
    (w : World) (name : Text) (names : List Text) (p : Pod)
    → w.delete_fails name ≡ true
    → is_left w names p ≡ is_left w (name ∷ names) p
left_undeleted w name names p h = elim (Bool-cases (same_text p.name name)) [
  | inr other ↦ rw other refl
  | inl same ↦
      let fails : w.delete_fails p.name ≡ true =
        ap w.delete_fails (same_text_eq p.name name same) ∙ h in
      ground (arith, fails)
]

pub delete_pods-filter :
    (w : World) (names : List Text) (pods : List Pod)
    → delete_pods w names pods ≡ filter (is_left w names) pods
unfolding delete_pods
delete_pods-filter w [] [] = refl
delete_pods-filter w [] (p ∷ pods) = ap (λ ps. p ∷ ps) (delete_pods-filter w [] pods)
delete_pods-filter w (name ∷ names) pods = elim (Bool-cases (w.delete_fails name)) [
  | inl fails ↦ rw fails (
      delete_pods-filter w names pods
      ∙ filter-cong (is_left w names) (is_left w (name ∷ names)) pods
          (λ p. left_undeleted w name names p fails))
  | inr works ↦ rw works (
      delete_pods-filter w names (filter (λ p. not (same_text p.name name)) pods)
      ∙ filter-filter (is_left w names) (λ p. not (same_text p.name name)) pods
      ∙ filter-cong _ (is_left w (name ∷ names)) pods (λ p. left_step w name names p works))
]

-- No pod has a name of the run's.
abbrev pub AreOthers : Text → List Pod → Type 0
AreOthers run = All (λ p. (i : ℕ) → same_text p.name (pod_name run i) ≡ false)

abbrev pub name_of : Text → BotAssignment → Text
name_of run a = pod_name run a.bot_index

others_any :
    (run : Text) (p : Pod) (bots : List BotAssignment)
    → ((i : ℕ) → same_text p.name (pod_name run i) ≡ false)
    → any (same_text p.name) (map (name_of run) bots) ≡ false
others_any run p [] h = refl
others_any run p (a ∷ bots) h = rw (h a.bot_index) (others_any run p bots h)

others_stay :
    (w : World) (run : Text) (bots : List BotAssignment) (pods : List Pod)
    → AreOthers run pods
    → filter (is_left w (map (name_of run) bots)) pods ≡ pods
others_stay w run bots [] h = refl
others_stay w run bots (p ∷ pods) h =
    rw (others_any run p bots h.0) (ap (λ ps. p ∷ ps) (others_stay w run bots pods h.1))

abbrev AreNamed : Text → List Text → List BotAssignment → Type 0
AreNamed run names = All (λ a. any (same_text (name_of run a)) names ≡ true)

named_more :
    (run : Text) (name : Text) (names : List Text) (bots : List BotAssignment)
    → AreNamed run names bots
    → AreNamed run (name ∷ names) bots
named_more run name names [] h = tt
named_more run name names (a ∷ bots) h = (ground (arith, h.0), named_more run name names bots h.1)

named : (run : Text) (bots : List BotAssignment) → AreNamed run (map (name_of run) bots) bots
named run [] = tt
named run (a ∷ bots) = (
  rw (same_text_refl (name_of run a)) refl,
  named_more run (name_of run a) (map (name_of run) bots) bots (named run bots),
)

-- The pods of a fleet that cannot be deleted.
abbrev pub undeleted : World → Text → List BotAssignment → List Pod
undeleted w run bots = filter (λ p. w.delete_fails p.name) (map (build_bot_pod run) bots)

named_left :
    (w : World) (run : Text) (names : List Text) (bots : List BotAssignment)
    → AreNamed run names bots
    → filter (is_left w names) (map (build_bot_pod run) bots) ≡ undeleted w run bots
unfolding build_bot_pod
named_left w run names [] h = refl
named_left w run names (a ∷ bots) h = elim (Bool-cases (w.delete_fails (name_of run a))) [
  | inl fails ↦
      rw (h.0, fails) (ap (λ ps. build_bot_pod run a ∷ ps) (named_left w run names bots h.1))
  | inr works ↦ rw (h.0, works) (named_left w run names bots h.1)
]

-- The release of a fleet: of its pods those stay that cannot be deleted, and all others.
pub delete_pods-fleet :
    (w : World) (run : Text) (bots : List BotAssignment) (pods : List Pod)
    → AreOthers run pods
    → delete_pods w (map (name_of run) bots) (pods ++ map (build_bot_pod run) bots)
      ≡ pods ++ undeleted w run bots
delete_pods-fleet w run bots pods h =
    delete_pods-filter w (map (name_of run) bots) (pods ++ map (build_bot_pod run) bots)
    ∙ filter-append (is_left w (map (name_of run) bots)) pods (map (build_bot_pod run) bots)
    ∙ ap (λ ps. ps ++ filter (is_left w (map (name_of run) bots)) (map (build_bot_pod run) bots))
        (others_stay w run bots pods h)
    ∙ ap (λ ps. pods ++ ps) (named_left w run (map (name_of run) bots) bots (named run bots))
