-- ===== src/Publish.antt =====
-- services/build-pipeline/internal/publisher/image.go: the commands that publish a submission as an
-- image. What buildah answers to a command is a parameter, `none` where it fails; the text that it
-- prints for a container is taken without the spaces around it.
pub mod Plan
use iicpc.Prelude.{ℕ, Bool, true, false, Option, none, some, List, [], ◌∷◌, ◌++◌, if◌then◌else◌}
use iicpc.Artifact.{Text}
use iicpc.Strings.{trim_space}
use iicpc.BuildQueue.{SubmissionStatus, build_publish_failed}

-- The commands of buildah, with their arguments.
pub data Command : Type 0 where
  from_scratch : Command
  copy : Text → Text → Text → Command
  config_entrypoint : Text → Command
  commit : Text → Text → Command
  push : Text → Command

-- "/app/submission" and "/submissions:".
abbrev pub app_path : Text
app_path = 47 ∷ 97 ∷ 112 ∷ 112 ∷ 47 ∷ 115 ∷ 117 ∷ 98 ∷ 109 ∷ 105 ∷ 115 ∷ 115 ∷ 105 ∷ 111 ∷ 110 ∷ []

abbrev pub repository : Text
repository = 47 ∷ 115 ∷ 117 ∷ 98 ∷ 109 ∷ 105 ∷ 115 ∷ 115 ∷ 105 ∷ 111 ∷ 110 ∷ 115 ∷ 58 ∷ []

unfoldable pub image_ref : Text → Text → Text
image_ref base id = base ++ repository ++ id

-- A failure is the status that the submission gets, and whether the update of it fails too.
pub data Published : Type 0 where
  published : Published
  publish_failed : SubmissionStatus → Bool → Published

pub record World : Type 0 where
  pub buildah : Command → Option Text
  pub update_fails : Bool

-- `publishFailed`.
abbrev pub failed_publication : World → Published
failed_publication w = publish_failed build_publish_failed w.update_fails

abbrev pub ran : Command → List Command × Published → List Command × Published
ran c o = (c ∷ o.0, o.1)

-- One command after the other, up to the first that fails.
unfoldable pub run_all : World → List Command → List Command × Published
run_all w [] = ([], published)
run_all w (c ∷ cs) =
    let rest = run_all w cs in
    elim (w.buildah c) [ none ↦ (c ∷ [], failed_publication w) | some out ↦ ran c rest ]

abbrev pub copies : Text → List Text → List Command
copies container [] = []
copies container (d ∷ ds) = copy container d d ∷ copies container ds

-- The commands from the second step on.
unfoldable pub steps : Text → Text → Text → List Text → Text → List Command
unfolding image_ref
steps base id binary deps container =
    copy container binary app_path
    ∷ (copies container deps
        ++ config_entrypoint container
          ∷ commit container (image_ref base id)
          ∷ push (image_ref base id)
          ∷ [])

abbrev pub with_container :
    World → Text → Text → Text → List Text → Option Text → List Command × Published
with_container w base id binary deps none = (from_scratch ∷ [], failed_publication w)
with_container w base id binary deps (some out) =
    ran from_scratch (run_all w (steps base id binary deps (trim_space out)))

-- `Publish`: the commands that are run, and the outcome.
unfoldable pub publish : World → Text → Text → Text → List Text → List Command × Published
publish w base id binary deps = with_container w base id binary deps (w.buildah from_scratch)
