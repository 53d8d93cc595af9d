-- ===== src/Proxy/Hostname/Tests.antt =====
-- The theorems on labels at a concrete name, and runs of the code.
use astro_cli.Prelude.{◌↔◌, refl, ◌≡◌, codes}
use astro_cli.Proxy.Hostname.Label.{sanitize_label-IsLabel_iff, IsLabel}
use astro_cli.Proxy.Hostname.{trim_right, trim_left, replace_runs, sanitize_label}

sanitized : sanitize_label (codes "--My Project_(v2)!") ≡ codes "my-project-v2"
unfolding sanitize_label replace_runs trim_left trim_right
sanitized = refl

sanitize_label-IsLabel_iff_example :
    IsLabel (sanitize_label (codes "--My Project_(v2)!"))
    × (IsLabel (codes "--My Project_(v2)!")
        ↔ (sanitize_label (codes "--My Project_(v2)!") ≡ codes "--My Project_(v2)!"))
sanitize_label-IsLabel_iff_example = sanitize_label-IsLabel_iff (codes "--My Project_(v2)!")
