-- ===== src/Publish/Plan.antt =====
-- Which commands a publication runs (image.go).
use iicpc.Prelude.{
  ◌≡◌, refl, ap, sym, subst, Bool, true, false, Option, none, some, List, [], ◌∷◌, if◌then◌else◌,
  any, through, Option-cases, inl, inr,
}
use iicpc.Artifact.{Text}
use iicpc.Strings.{trim_space}
use iicpc.BuildQueue.{build_publish_failed}
use iicpc.Publish.{
  Command, from_scratch, Published, published, publish_failed, World, failed_publication, ran,
  run_all, steps, with_container, publish,
}

abbrev pub fails : World → Command → Bool
fails w c = elim (w.buildah c) [ none ↦ true | some out ↦ false ]

-- The commands of a publication for which no command fails, as far as they are known: the container
-- that the first gives stands in the others.
abbrev pub plan_for : Text → Text → Text → List Text → Option Text → List Command
plan_for base id binary deps none = from_scratch ∷ []
plan_for base id binary deps (some out) = from_scratch ∷ steps base id binary deps (trim_space out)

abbrev pub plan : World → Text → Text → Text → List Text → List Command
plan w base id binary deps = plan_for base id binary deps (w.buildah from_scratch)

abbrev Runs : World → List Command → List Command × Published → Type 0
Runs w cs o =
    (o.0 ≡ through (fails w) cs)
    × (o.1 ≡ (if any (fails w) cs then failed_publication w else published))

ran-Runs :
    (w : World) (c : Command) (cs : List Command) (o : List Command × Published)
    → fails w c ≡ false
    → Runs w cs o
    → Runs w (c ∷ cs) (ran c o)
ran-Runs w c cs o e (h, k) = rw e (ap (λ ds. c ∷ ds) h, k)

answered : (w : World) (c : Command) (out : Text) → w.buildah c ≡ some out → fails w c ≡ false
answered w c out e = ap (λ (o : Option Text). elim o [ none ↦ true | some text ↦ false ]) e

refused : (w : World) (c : Command) → w.buildah c ≡ none → fails w c ≡ true
refused w c e = ap (λ (o : Option Text). elim o [ none ↦ true | some text ↦ false ]) e

stopped :
    (w : World) (c : Command) (cs : List Command) (o : List Command × Published)
    → fails w c ≡ true
    → o ≡ (c ∷ [], failed_publication w)
    → Runs w (c ∷ cs) o
stopped w c cs o e h = rw (h, e) (refl, refl)

run_all-Runs : (w : World) (cs : List Command) → Runs w cs (run_all w cs)
unfolding run_all
run_all-Runs w [] = (refl, refl)
run_all-Runs w (c ∷ cs) = elim (Option-cases (w.buildah c)) [
  | inl e ↦ stopped w c cs _ (refused w c e) (rw (e, run_all) refl)
  | inr (out, e) ↦
      subst (Runs w (c ∷ cs)) (sym (rw (e, run_all) refl))
        (ran-Runs w c cs (run_all w cs) (answered w c out e) (run_all-Runs w cs))
]

container_cases :
    (w : World) (base id binary : Text) (deps : List Text) (o : Option Text)
    → w.buildah from_scratch ≡ o
    → Runs w (plan_for base id binary deps o) (with_container w base id binary deps o)
container_cases w base id binary deps none e =
    stopped w from_scratch [] _ (refused w from_scratch e) refl
container_cases w base id binary deps (some out) e =
    ran-Runs w from_scratch (steps base id binary deps (trim_space out)) _
      (answered w from_scratch out e) (run_all-Runs w (steps base id binary deps (trim_space out)))

-- A publication runs the commands of its plan in their order, up to the first that fails and with that
-- one: a container from nothing, the executable, each library to its own path, the entry point, the
-- image and its push. It succeeds exactly if none fails; otherwise the submission gets
-- BUILD_PUBLISH_FAILED, with a second error if that update fails too.
publish-plan :
    (w : World) (base id binary : Text) (deps : List Text)
    → ((publish w base id binary deps).0 ≡ through (fails w) (plan w base id binary deps))
      × ((publish w base id binary deps).1 ≡ (
          if any (fails w) (plan w base id binary deps)
          then publish_failed build_publish_failed w.update_fails
          else published))
unfolding publish
publish-plan w base id binary deps =
    container_cases w base id binary deps (w.buildah from_scratch) refl
