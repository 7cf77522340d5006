-- ===== src/Transfer/Paths.antt =====
-- The paths that a peer supplies (internal/transfer/paths.go: sanitizeRelativePath on a Unix build,
-- windowsPathHazard, isReservedWindowsName), as lists of bytes, with path/filepath's Clean.
pub mod Components
pub mod Walking
pub mod Beneath
use fsend.Base.{ℕ, zero, suc, ◌-◌, Bool, true, false, not, ◌&&◌, ◌||◌, Option, none, some}
use fsend.Base.{List, [], ◌∷◌, ◌++◌, reverse, if◌then◌else◌, ltb, leb, ◌==◌, length, take, drop}
use fsend.Base.Bytes.{bytes_eq}

abbrev pub Component : Type 0
Component = List ℕ

-- The characters / \ : .
abbrev pub slash : ℕ
slash = 47

abbrev pub backslash : ℕ
backslash = 92

abbrev pub colon : ℕ
colon = 58

abbrev pub period : ℕ
period = 46

-- strings.Split at a slash.
abbrev onto_first : ℕ → List Component → List Component
onto_first c [] = (c ∷ []) ∷ []
onto_first c (x ∷ xs) = (c ∷ x) ∷ xs

unfoldable pub split : List ℕ → List Component
split [] = [] ∷ []
split (c ∷ cs) = let rest = split cs in if c == slash then [] ∷ rest else onto_first c rest

-- strings.Join with a slash.
unfoldable pub join : List Component → List ℕ
join [] = []
join (x ∷ []) = x
join (x ∷ y ∷ xs) = x ++ (slash ∷ join (y ∷ xs))

abbrev pub is_dot : Component → Bool
is_dot c = bytes_eq c (period ∷ [])

abbrev pub is_up : Component → Bool
is_up c = bytes_eq c (period ∷ period ∷ [])

-- One component in filepath.Clean of a path that is not rooted, onto those before it, the last first.
abbrev go_up : List Component → List Component
go_up [] = (period ∷ period ∷ []) ∷ []
go_up (top ∷ below) = if is_up top then (period ∷ period ∷ []) ∷ top ∷ below else below

unfoldable pub clean_step : List Component → Component → List Component
clean_step stack c =
    if bytes_eq c [] || is_dot c then stack else if is_up c then go_up stack else c ∷ stack

unfoldable pub clean_from : List Component → List Component → List Component
clean_from stack [] = stack
clean_from stack (c ∷ cs) = clean_from (clean_step stack c) cs

abbrev pub joined_or_dot : List Component → List ℕ
joined_or_dot [] = period ∷ []
joined_or_dot (x ∷ xs) = join (reverse (x ∷ xs))

-- filepath.Clean
unfoldable pub clean : List ℕ → List ℕ
clean p = joined_or_dot (clean_from [] (split p))

unfoldable pub any : {A : Type 0} → (A → Bool) → List A → Bool
any p [] = false
any p (x ∷ xs) = p x || any p xs

-- The characters that Win32 refuses: < > " | ? * \ and those below a space.
abbrev is_refused : ℕ → Bool
is_refused c =
    ltb c 32
    || ((c == 60)
        || (c == 62)
        || (c == 34)
        || (c == 124)
        || (c == 63)
        || (c == 42)
        || (c == backslash))

-- What lies in front of the first period.
unfoldable pub stem : Component → Component
stem [] = []
stem (c ∷ cs) = if c == period then [] else c ∷ stem cs

-- strings.TrimRight of spaces.
abbrev drop_space : ℕ → Component → Component
drop_space c [] = if c == 32 then [] else c ∷ []
drop_space c (d ∷ ds) = c ∷ d ∷ ds

unfoldable pub trim_right : Component → Component
trim_right [] = []
trim_right (c ∷ cs) = drop_space c (trim_right cs)

-- strings.ToUpper in UTF-8, as far as it leads to ASCII: the letters a to z, and U+0131 and U+017F,
-- whose capitals are I and S. Other characters are left as they are.
unfoldable pub to_upper : Component → Component
to_upper [] = []
to_upper (c ∷ []) = (if leb 97 c && leb c 122 then c - 32 else c) ∷ []
to_upper (c ∷ d ∷ cs) =
    let one = to_upper (d ∷ cs) in
    let two = to_upper cs in
    if (c == 196) && (d == 177)
    then 73 ∷ two
    else if (c == 197) && (d == 191)
    then 83 ∷ two
    else (if leb 97 c && leb c 122 then c - 32 else c) ∷ one

-- The digits behind COM and LPT: 1 to 9, and the superscripts ¹, ² and ³ in UTF-8.
abbrev is_port : Component → Bool
is_port [] = false
is_port (c ∷ []) = leb 49 c && leb c 57
is_port (c ∷ d ∷ []) = (c == 194) && ((d == 185) || (d == 178) || (d == 179))
is_port (c ∷ d ∷ e ∷ cs) = false

abbrev is_numbered_device : Component → Bool
is_numbered_device up =
    (bytes_eq (take 3 up) (67 ∷ 79 ∷ 77 ∷ []) || bytes_eq (take 3 up) (76 ∷ 80 ∷ 84 ∷ []))
    && is_port (drop 3 up)

-- isReservedWindowsName: CON, PRN, AUX, NUL, CONIN$, CONOUT$, COM1 to COM9, LPT1 to LPT9.
unfoldable pub is_reserved_windows_name : Component → Bool
is_reserved_windows_name c =
    let up = to_upper (trim_right (stem c)) in
    bytes_eq up (67 ∷ 79 ∷ 78 ∷ [])
    || bytes_eq up (80 ∷ 82 ∷ 78 ∷ [])
    || bytes_eq up (65 ∷ 85 ∷ 88 ∷ [])
    || bytes_eq up (78 ∷ 85 ∷ 76 ∷ [])
    || bytes_eq up (67 ∷ 79 ∷ 78 ∷ 73 ∷ 78 ∷ 36 ∷ [])
    || bytes_eq up (67 ∷ 79 ∷ 78 ∷ 79 ∷ 85 ∷ 84 ∷ 36 ∷ [])
    || is_numbered_device up

unfoldable pub ends_badly : Component → Bool
ends_badly [] = false
ends_badly (c ∷ []) = (c == period) || (c == 32)
ends_badly (c ∷ d ∷ cs) = ends_badly (d ∷ cs)

-- windowsPathHazard, without the reason.
unfoldable pub windows_path_hazard : Component → Bool
windows_path_hazard c =
    if is_dot c || is_up c
    then false
    else any (λ b. b == colon) c || any is_refused c || is_reserved_windows_name c || ends_badly c

abbrev starts_with : ℕ → List ℕ → Bool
starts_with c [] = false
starts_with c (b ∷ bs) = b == c

abbrev is_letter : ℕ → Bool
is_letter c = (leb 65 c && leb c 90) || (leb 97 c && leb c 122)

abbrev has_drive : List ℕ → Bool
has_drive [] = false
has_drive (c ∷ []) = false
has_drive (c ∷ d ∷ cs) = (d == colon) && is_letter c

-- The path, or nothing on an error; `windows` is `goos == "windows"`. On Unix, filepath.IsAbs is a
-- leading slash, FromSlash changes nothing, and VolumeName is empty. A path of two leading slashes
-- or backslashes is refused with those of one.
unfoldable pub sanitize_relative_path : Bool → List ℕ → Option (List ℕ)
sanitize_relative_path windows p =
    if length p == 0
    then none
    else if starts_with slash p || starts_with backslash p
    then none
    else if has_drive p
    then none
    else if windows && any windows_path_hazard (split p)
    then none
    else if any is_up (split (clean p))
    then none
    else some (clean p)
