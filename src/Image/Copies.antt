-- ===== src/Image/Copies.antt =====
-- -- Which file stands where after the commands of an image (builder.go).
use iicpc.Prelude.{
  ◌≡◌, refl, ap, sym, subst, ◌∙◌, Bool, true, false, not, ◌||◌, Option, none, some, List, [], ◌∷◌,
  ◌++◌, arith, Bool-cases, Option-cases, inl, inr, if◌then◌else◌,
}
use iicpc.Artifact.{Text, same_text}
use iicpc.Artifact.Texts.{same_text_refl, same_text_eq}
use iicpc.Publish.{app_path}
use iicpc.Image.{
  Command, copy, config_cmd, commit, World, lib_path, base, lib_dest, run_all, lib_copies, steps,
}

-- The later of two answers, if there is one.
abbrev pub later : Option Text → Option Text → Option Text
later a none = a
later a (some x) = some x

-- The file that a command copies to a path.
abbrev pub source : Text → Command → Option Text
source p (copy container src dest) = if same_text dest p then some src else none
source p _ = none

-- The file that stands at a path after the commands: the last that was copied there.
abbrev pub copied_to : Text → List Command → Option Text
copied_to p [] = none
copied_to p (c ∷ cs) = later (source p c) (copied_to p cs)

-- The last of the paths with a base.
abbrev pub last_named : Text → List Text → Option Text
last_named n [] = none
last_named n (d ∷ ds) = later (if same_text (base d) n then some d else none) (last_named n ds)

-- A base that `filepath.Join` keeps: none of ".", "/" and "..".
abbrev pub is_plain : Text → Bool
is_plain n = not (same_text n (46 ∷ []) || same_text n (47 ∷ []) || same_text n (46 ∷ 46 ∷ []))

plain_dest : (n : Text) → is_plain n ≡ true → lib_dest n ≡ lib_path ++ 47 ∷ n
unfolding lib_dest
plain_dest n h = ground (arith, h)

dest_elsewhere :
    (b n : Text) → same_text b n ≡ false → same_text (lib_dest b) (lib_path ++ 47 ∷ n) ≡ false
unfolding lib_dest same_text
dest_elsewhere b n h = ground (arith, h)

same_dest : (b n : Text) → is_plain n ≡ true → same_text (lib_dest b) (lib_dest n) ≡ same_text b n
same_dest b n h = elim (Bool-cases (same_text b n)) [
  | inl e ↦
      subst (λ (t : Text). same_text (lib_dest b) (lib_dest t) ≡ true) (same_text_eq b n e)
        (same_text_refl (lib_dest b))
      ∙ sym e
  | inr e ↦
      subst (λ (t : Text). same_text (lib_dest b) t ≡ false) (sym (plain_dest n h))
        (dest_elsewhere b n e)
      ∙ sym e
]

later_assoc : (a b c : Option Text) → later (later a b) c ≡ later a (later b c)
later_assoc a b none = refl
later_assoc a b (some x) = refl

copied_to-append :
    (p : Text) (xs ys : List Command)
    → copied_to p (xs ++ ys) ≡ later (copied_to p xs) (copied_to p ys)
copied_to-append p [] ys = elim (Option-cases (copied_to p ys)) [
  | inl e ↦ rw e refl
  | inr (x, e) ↦ rw e refl
]
copied_to-append p (c ∷ cs) ys =
    rw (copied_to-append p cs ys) (sym (later_assoc (source p c) (copied_to p cs) (copied_to p ys)))

copied_to-lib_copies :
    (container n : Text) (deps : List Text)
    → is_plain n ≡ true
    → copied_to (lib_dest n) (lib_copies container deps) ≡ last_named n deps
copied_to-lib_copies container n [] h = refl
copied_to-lib_copies container n (d ∷ ds) h =
    rw (same_dest (base d) n h, copied_to-lib_copies container n ds h) refl

app_elsewhere : (n : Text) → is_plain n ≡ true → same_text app_path (lib_dest n) ≡ false
unfolding same_text
app_elsewhere n h = subst (λ (t : Text). same_text app_path t ≡ false) (sym (plain_dest n h)) refl

pub later_identity : (a : Option Text) → later none a ≡ a
later_identity none = refl
later_identity (some x) = refl

pub copied_to-steps :
    (ref binary container n : Text) (deps : List Text)
    → is_plain n ≡ true
    → copied_to (lib_dest n) (steps ref binary deps container) ≡ last_named n deps
unfolding steps
copied_to-steps ref binary container n deps h =
    rw
      (
        app_elsewhere n h,
        copied_to-append (lib_dest n) (lib_copies container deps)
            (config_cmd container ∷ commit container ref ∷ []),
        copied_to-lib_copies container n deps h,
      )
      (later_identity (last_named n deps))

-- If no command fails, all are run.
pub run_all-whole :
    (w : World) (cs : List Command) → (run_all w cs).1 ≡ true → (run_all w cs).0 ≡ cs
unfolding run_all
run_all-whole w [] h = refl
run_all-whole w (c ∷ cs) h = elim (Option-cases (w.buildah c)) [
  | inl e ↦ absurd (ground (arith, rw (e, run_all) at h))
  | inr (out, e) ↦ rw (e, run_all) (ap (λ ds. c ∷ ds) (run_all-whole w cs (rw (e, run_all) at h)))
]
