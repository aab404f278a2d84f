-- ===== src/Protocol/Manifest/Matching.antt =====
-- The check of a boot menu against a manifest.
use nlboot.Base.{
  ◌≡◌, refl, ◌↔◌, true, Option, none, some, eq_iff, ok, arith, bind_ok, >>=-eq-ok, true_of_guard,
}
use nlboot.Json.{Value, null, obj}
use nlboot.Protocol.Modes.{mode_name, mode_name-injective}
use nlboot.Protocol.Entry.{BootMenuEntry}
use nlboot.Protocol.Menu.{BootMenu, default_entry, from_dict}
use nlboot.Protocol.Menu.Laws as MenuLaws
use nlboot.Protocol.Manifest.{
  SignedBootManifest, matches_manifest, validate_for_manifest, validate_menu, read_menu,
}

-- The entry boots the manifest's boot release and base release, in its mode.
pub record Matches (e : BootMenuEntry) (m : SignedBootManifest) : Type 0 where
  pub boot_release : e.boot_release_set_id ≡ m.boot_release_set_id
  pub base_release : e.release_set_ref ≡ m.base_release_set_ref
  pub mode : e.boot_mode ≡ m.boot_mode

pub matches_manifest_iff :
    (e : BootMenuEntry) (m : SignedBootManifest) → (matches_manifest e m ≡ true) ↔ Matches e m
unfolding matches_manifest
matches_manifest_iff e m = (
  λ h. record {
    boot_release = ground (arith, eq_iff e.boot_release_set_id m.boot_release_set_id);
    base_release = ground (arith, eq_iff e.release_set_ref m.base_release_set_ref);
    mode =
        mode_name-injective e.boot_mode m.boot_mode
          (ground (arith, eq_iff (mode_name e.boot_mode) (mode_name m.boot_mode)));
  },
  λ c. ground (
    arith,
    eq_iff e.boot_release_set_id m.boot_release_set_id,
    eq_iff e.release_set_ref m.base_release_set_ref,
    eq_iff (mode_name e.boot_mode) (mode_name m.boot_mode),
  ),
)

-- A menu, where there is one, has a default entry, which matches the manifest.
abbrev pub MenuMatches : Option BootMenu → SignedBootManifest → Type 0
MenuMatches none m = Unit
MenuMatches (some menu) m = (e : BootMenuEntry) × (default_entry menu ≡ ok e) × Matches e m

validate_for_manifest_sound :
    (menu : BootMenu) (m : SignedBootManifest)
    → validate_for_manifest menu m ≡ ok tt
    → MenuMatches (some menu) m
unfolding validate_for_manifest
validate_for_manifest_sound menu m h =
    let (e, d, g) = >>=-eq-ok (default_entry menu) _ h in
    (e, d, (matches_manifest_iff e m).0 (true_of_guard _ _ g))

validate_for_manifest_complete :
    (menu : BootMenu) (m : SignedBootManifest)
    → MenuMatches (some menu) m
    → validate_for_manifest menu m ≡ ok tt
unfolding validate_for_manifest
validate_for_manifest_complete menu m (e, d, c) = bind_ok _ d (rw ((matches_manifest_iff e m).1 c))

-- The check of a manifest's menu passes exactly if there is none, or its default entry exists and
-- has the manifest's boot release, base release and mode.
pub validate_menu_iff :
    (menu : Option BootMenu) (m : SignedBootManifest)
    → (validate_menu menu m ≡ ok tt) ↔ MenuMatches menu m
validate_menu_iff none m = (λ _. tt, λ _. refl)
validate_menu_iff (some menu) m =
    (validate_for_manifest_sound menu m, validate_for_manifest_complete menu m)

-- What the document holds under "boot_menu".
abbrev pub EncodesMenu : Value → Option BootMenu → Type 0
EncodesMenu null none = Unit
EncodesMenu (obj fields) (some menu) = MenuLaws.Encodes fields menu
EncodesMenu _ _ = ⊥

pub read_menu_iff :
    (v : Value) (menu : Option BootMenu) → (read_menu v ≡ ok menu) ↔ EncodesMenu v menu
unfolding read_menu
read_menu_iff null none = (λ _. tt, λ _. refl)
read_menu_iff null (some menu) = (λ h. cc, λ e. absurd e)
read_menu_iff (obj fields) (some menu) = (
  λ h.
      let (found, f, same) = >>=-eq-ok (from_dict fields) _ h in
      (MenuLaws.menu_from_dict_iff fields menu).0 (cc),
  λ e. rw ((MenuLaws.menu_from_dict_iff fields menu).1 e),
)
read_menu_iff (obj fields) none =
    (λ h. let (found, f, same) = >>=-eq-ok (from_dict fields) _ h in cc, λ e. absurd e)
read_menu_iff _ _ = (λ h. cc, λ e. absurd e)
