-- ===== src/ArgumentValidator/Tests.antt =====
-- Concrete names.

use mcvirt.Base.{[], ◌∷◌, ◌↔◌, ◌≡◌, true, refl}
use mcvirt.Base.Text.{codes}
use mcvirt.Base.Exec.{ok}
use mcvirt.ArgumentValidator.{validate_hostname, is_volume_character, validate_vg_name}
use mcvirt.ArgumentValidator.Names.{
  IsName, IsLine, validate_hostname-IsName, validate_vg_name-IsLine,
}

hostname_example : (validate_hostname "node-1" ≡ ok tt) ↔ IsName (codes "node-1")
hostname_example = validate_hostname-IsName "node-1"

-- A volume group whose name ends in a newline.
vg_name_example :
    (validate_vg_name "v\n" ≡ ok tt) ↔ ((is_volume_character 118 ≡ true) × IsLine (10 ∷ []))
vg_name_example = validate_vg_name-IsLine "v\n" 118 (10 ∷ []) (unfold codes in refl)
