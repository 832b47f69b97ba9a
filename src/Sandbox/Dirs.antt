-- ===== src/Sandbox/Dirs.antt =====
-- The directory policy of ephemora_cell/_sandbox_common.py. Paths are lists of code points. `canonicalize`
-- stands for `os.path.realpath` of the expanded path at one moment, `is_dir` for `os.path.isdir`.
pub mod Allowed
pub mod Granted
use ephemora_cell.Common.{
  ℕ, String, Bool, true, false, ◌&&◌, ◌||◌, not, Option, none, some, List, [], ◌∷◌, ◌++◌, ◌==◌,
  nat_beq, if◌then◌else◌,
}
use ephemora_cell.Common.Bytes.{Text, bytes_key}
use ephemora_cell.Common.Texts.{starts_with, slash}
use ephemora_cell.Common.Decimal.{codes}

-- `path == root or path.startswith(root + "/")`
abbrev pub is_under : Text → Text → Bool
is_under path root = path == root || starts_with (root ++ slash ∷ []) path

abbrev pub under_any : Text → List Text → Bool
under_any path [] = false
under_any path (root ∷ rest) = is_under path root || under_any path rest

-- `CANONICAL_EXCEPTIONS`
unfoldable pub canonical_exceptions : List Text
canonical_exceptions = codes "/private/tmp" ∷ codes "/private/var/folders" ∷ []

-- `DANGEROUS_DIRS`
unfoldable pub dangerous_dirs : List Text
dangerous_dirs =
    codes "/dev"
    ∷ codes "/proc"
    ∷ codes "/sys"
    ∷ codes "/etc"
    ∷ codes "/root"
    ∷ codes "/usr"
    ∷ codes "/bin"
    ∷ codes "/sbin"
    ∷ codes "/lib"
    ∷ codes "/lib64"
    ∷ codes "/boot"
    ∷ codes "/snap"
    ∷ codes "/kernel"
    ∷ codes "/private"
    ∷ []

-- `FORBIDDEN_CANONICAL`
unfoldable pub forbidden_canonical : List Text
forbidden_canonical =
    codes "/etc"
    ∷ codes "/usr"
    ∷ codes "/bin"
    ∷ codes "/sbin"
    ∷ codes "/lib"
    ∷ codes "/lib64"
    ∷ codes "/dev"
    ∷ codes "/proc"
    ∷ codes "/sys"
    ∷ codes "/boot"
    ∷ codes "/snap"
    ∷ codes "/kernel"
    ∷ codes "/root"
    ∷ codes "/private"
    ∷ []

-- `under_canonical_exception`
unfoldable pub under_canonical_exception : Text → Bool
under_canonical_exception path = under_any path canonical_exceptions

-- The loop over `FORBIDDEN_CANONICAL`
unfoldable pub first_above : Text → List Text → Option Text
first_above path [] = none
first_above path (root ∷ rest) = if is_under path root then some root else first_above path rest

-- `forbidden_canonical_match`
unfoldable pub forbidden_canonical_match : Text → Option Text
forbidden_canonical_match canon =
    if canon == slash ∷ []
    then some (slash ∷ [])
    else if under_any canon canonical_exceptions
    then none
    else first_above canon forbidden_canonical

abbrev extended : ℕ → Option (Text × Text) → Option (Text × Text)
extended c none = none
extended c (some (host, guest)) = some (c ∷ host, guest)

-- `entry.partition("::")`; `none` is an entry without the separator.
unfoldable pub partition : Text → Option (Text × Text)
partition [] = none
partition (c ∷ []) = none
partition (c ∷ d ∷ s) =
    let later = partition (d ∷ s) in
    if nat_beq c b':' && nat_beq d b':' then some ([], s) else extended c later

abbrev pub mapping_of : Text → Option (Text × Text) → Text × Text
mapping_of entry (some (c ∷ host, d ∷ guest)) = (c ∷ host, d ∷ guest)
mapping_of entry _ = (entry, entry)

-- `split_dir_mapping`: the host's path and the guest's name for it
unfoldable pub split_dir_mapping : Text → Text × Text
split_dir_mapping entry = mapping_of entry (partition entry)

abbrev pub is_some : {A : Type 0} → Option A → Bool
is_some none = false
is_some (some a) = true

-- Whether the filter drops a host path: by what it resolves to, or by its text.
unfoldable pub is_dropped : (Text → Text) → Text → Bool
is_dropped canonicalize host =
    is_some (forbidden_canonical_match (canonicalize host))
    || under_any host dangerous_dirs && not (under_canonical_exception host)

-- `filter_dangerous_dirs`
unfoldable pub filter_dangerous_dirs : (Text → Text) → List Text → List Text
filter_dangerous_dirs canonicalize [] = []
filter_dangerous_dirs canonicalize (d ∷ rest) =
    let safe = filter_dangerous_dirs canonicalize rest in
    if is_dropped canonicalize (split_dir_mapping d).0 then safe else d ∷ safe

-- `validate_allow_dirs`: the first entry that it raises for
unfoldable pub validate_allow_dirs : (Text → Text) → List Text → Option Text
validate_allow_dirs canonicalize [] = none
validate_allow_dirs canonicalize (d ∷ rest) =
    let later = validate_allow_dirs canonicalize rest in
    if is_some (forbidden_canonical_match (canonicalize (split_dir_mapping d).0))
    then some d
    else later

-- `check_dangerous_dirs`: the entries that it warns of
unfoldable pub check_dangerous_dirs : List Text → List Text
check_dangerous_dirs [] = []
check_dangerous_dirs (d ∷ rest) =
    let later = check_dangerous_dirs rest in
    let host = (split_dir_mapping d).0 in
    if under_any host dangerous_dirs && not (under_canonical_exception host)
    then d ∷ later
    else later

-- A preopened directory: the host's path and the guest's name.
abbrev pub Preopen : Type 0
Preopen = Text × Text

-- `preopen_dir(sandbox_dir, "/sandbox")`, for a `sandbox_dir` that is not `None`
abbrev pub sandbox_mount : Option Text → List Preopen
sandbox_mount none = []
sandbox_mount (some dir) = (dir, codes "/sandbox") ∷ []

-- What is recorded of that mount.
abbrev pub sandbox_record : Option Text → List Text
sandbox_record none = []
sandbox_record (some dir) = codes "/sandbox" ∷ []

abbrev pub host_paths : List Preopen → List Text
host_paths [] = []
host_paths (p ∷ ps) = p.0 ∷ host_paths ps

-- The loop of `grant_preopens`, which resolves each entry again at the moment of the grant.
unfoldable pub grant_each : (Text → Text) → (Text → Bool) → List Text → List Preopen
grant_each canonicalize is_dir [] = []
grant_each canonicalize is_dir (d ∷ rest) =
    let later = grant_each canonicalize is_dir rest in
    let canon = canonicalize (split_dir_mapping d).0 in
    if is_some (forbidden_canonical_match canon)
    then later
    else if not (is_dir canon)
    then later
    else (canon, (split_dir_mapping d).1) ∷ later

-- `grant_preopens`: what is preopened, and what is returned as granted
unfoldable pub grant_preopens :
    (Text → Text) → (Text → Bool) → List Text → Option Text → List Preopen × List Text
grant_preopens canonicalize is_dir safe_dirs sandbox_dir =
    let each = grant_each canonicalize is_dir safe_dirs in
    (each ++ sandbox_mount sandbox_dir, host_paths each ++ sandbox_record sandbox_dir)
