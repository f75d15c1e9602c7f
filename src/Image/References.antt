-- ===== src/Image/References.antt =====
-- The two references of an image of one submission (publisher/image.go, image/builder.go).
use iicpc.Prelude.{◌≢◌, [], ◌∷◌, arith}
use iicpc.Artifact.{Text}
use iicpc.Publish.{image_ref}
use iicpc.Image.{latest_ref}

-- What a publication pushes never has the name that the image builder gives, in any registry.
image_ref-latest_ref : (registry id : Text) → image_ref registry id ≢ latest_ref registry id
unfolding image_ref latest_ref
image_ref-latest_ref [] id h = ground (arith, h)
image_ref-latest_ref (x ∷ registry) id h = image_ref-latest_ref registry id (ground (arith, h))
