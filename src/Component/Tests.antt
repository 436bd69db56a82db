-- ===== src/Component/Tests.antt =====
-- The theorem of Component/MountRoot at two exports of one file.
use go_solid.Prelude.{text, ◌≡◌, refl}
use go_solid.Component.{mount_root_id_for}

mount_id :
    mount_root_id_for (text "auth/LoginForm#Submit") ≡ text "auth-LoginForm-Submit-go-solid-root"
unfolding mount_root_id_for
mount_id = refl
