-- ===== src/Transfer/PathTests.antt =====
-- Runs of the check of a peer's path (internal/transfer/paths.go).
use fsend.Base.{◌≡◌, refl, true, false, none, some}
use fsend.Base.Bytes.{bytes_eq}
use fsend.Base.Texts.{codes}
use fsend.Transfer.Paths.{
  split, join, clean_step, clean_from, clean, any, stem, trim_right, to_upper,
  is_reserved_windows_name, ends_badly, windows_path_hazard, sanitize_relative_path,
}
use fsend.Transfer.Paths.Beneath.{IsBeneath, sanitize_relative_path-IsBeneath}

cleaned : sanitize_relative_path true (codes "a/.//b/../c.txt") ≡ some (codes "a/c.txt")
unfolding sanitize_relative_path split join clean_step clean_from clean any stem trim_right to_upper
    is_reserved_windows_name ends_badly windows_path_hazard bytes_eq
cleaned = refl

climbing : sanitize_relative_path false (codes "a/../../b") ≡ none
unfolding sanitize_relative_path split join clean_step clean_from clean any bytes_eq
climbing = refl

-- A device's name is refused on Windows only.
device : sanitize_relative_path true (codes "x/aux.c") ≡ none
unfolding sanitize_relative_path split join clean_step clean_from clean any stem trim_right to_upper
    is_reserved_windows_name ends_badly windows_path_hazard bytes_eq
device = refl

no_device : sanitize_relative_path false (codes "x/aux.c") ≡ some (codes "x/aux.c")
unfolding sanitize_relative_path split join clean_step clean_from clean any bytes_eq
no_device = refl

drive : sanitize_relative_path false (codes "C:/x") ≡ none
unfolding sanitize_relative_path
drive = refl

sanitize_relative_path-IsBeneath_example :
    IsBeneath true (codes "a/.//b/../c.txt") (codes "a/c.txt")
sanitize_relative_path-IsBeneath_example =
    sanitize_relative_path-IsBeneath true (codes "a/.//b/../c.txt") (codes "a/c.txt") cleaned
