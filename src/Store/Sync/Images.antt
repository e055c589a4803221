-- ===== src/Store/Sync/Images.antt =====
-- internal/core/store.go: the list of images that `Sync` tells a Node to keep.
use runner_loom.Base.{Bool, false, ◌&&◌, ◌||◌, String, List, [], ◌∷◌, ◌++◌, str_eq, if◌then◌else◌}
use runner_loom.Config.{Config, Image, Node, Pool, eligible, image_or_zero}
use runner_loom.Instance.{Instance}
use runner_loom.Store.Sync.Report.{concerns}

has_digest : List Image → String → Bool
has_digest [] d = false
has_digest (im ∷ images) d = str_eq im.digest d || has_digest images d

-- `addImage`; the map `imageSeen` holds the digests of the list.
unfoldable pub add_image : Image → List Image → List Image
unfolding has_digest
add_image im images =
    if str_eq im.digest "" || has_digest images im.digest then images else images ++ im ∷ []

unfoldable pub pool_images : Config → Node → List Pool → List Image → List Image
unfolding add_image
pool_images c n [] images = images
pool_images c n (p ∷ ps) images =
    pool_images c n ps
      (if p.enabled && eligible p n then add_image (image_or_zero c p.image) images else images)

unfoldable pub run_images : String → List Instance → List Image → List Image
unfolding add_image
run_images name [] images = images
run_images name (a ∷ runs) images =
    run_images name runs (if concerns name a then add_image a.image images else images)
