-- ===== src/Build/Metadata.antt =====
-- buildImageID: the image ID in the metadata of a build. encoding/json is a parameter: `members` reads an
-- object whose members are left as they are, `string` a member that is a string.
use docker_in_k8s.Common.{Option, none, some, [], is_nil, if◌then◌else◌}
use docker_in_k8s.Text.{Text, codes}
use docker_in_k8s.Dicts.{Dict, lookup}
use docker_in_k8s.Result.{Result, ok, err, message, wrap, ◌>>=◌}

module _ (members : Text → Result (Dict Text)) (string : Text → Result Text) where
  abbrev id_of : Option Text → Result Text
  id_of none = ok []
  id_of (some value) = wrap (codes "parse image ID") (string value)

  abbrev required : Text → Result Text
  required id =
      if is_nil id
      then err (message (codes "build metadata did not contain an image ID"))
      else ok id

  unfoldable pub build_image_id : Text → Result Text
  build_image_id metadata = do
    values ← wrap (codes "parse build metadata") (members metadata)
    id ← id_of (lookup (codes "containerimage.config.digest") values)
    required id
