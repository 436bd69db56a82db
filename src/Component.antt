-- ===== src/Component.antt =====
-- shared/registry/registry.go: a component, and the ids derived from its selector.
pub mod MountRoot
mod Tests
use go_solid.Prelude.{ℕ, Text, text, map, [], ◌∷◌, ◌++◌, ◌||◌, ◌==◌, if◌then◌else◌}
use go_solid.Meta.{export_selector, split_selector, join_selector}

pub record Component : Type 0 where
  pub name : Text
  pub path : Text
  pub ext : Text
  pub export : Text
  pub mount_root_id : Text

-- One character of strings.NewReplacer("/", "-", EXPORT_SELECTOR, "-").
abbrev pub flatten_char : ℕ → ℕ
flatten_char c = if c == b'/' || c == export_selector then b'-' else c

unfoldable pub mount_root_id_for : Text → Text
mount_root_id_for name = map flatten_char name ++ text "-go-solid-root"

unfoldable pub new_component : Text → Text → Text → Component
new_component name path ext = record {
  name = name;
  path = path;
  ext = ext;
  export = [];
  mount_root_id = mount_root_id_for name;
}

unfoldable pub with_export : Component → Text → Component
with_export this export =
    let (file, _old) = split_selector this.name in
    let name = join_selector file export in
    record {
      name = name;
      path = this.path;
      ext = this.ext;
      export = export;
      mount_root_id = mount_root_id_for name;
    }
