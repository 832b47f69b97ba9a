-- ===== src/Tests/Sandbox.antt =====
-- The directory policy and the output budget at concrete inputs.
use ephemora_cell.Common.{
  ◌≡◌, ◌↔◌, ◌⊎◌, Among, none, refl, Bool, true, false, List, [], ◌∷◌, some, ◌==◌, if◌then◌else◌,
}
use ephemora_cell.Common.Bytes.{Text, bytes_key}
use ephemora_cell.Common.Decimal.{codes}
use ephemora_cell.Common.Texts.{starts_with}
use ephemora_cell.Sandbox.Dirs.{
  is_some, first_above, canonical_exceptions, dangerous_dirs, forbidden_canonical,
  forbidden_canonical_match, filter_dangerous_dirs, grant_each, grant_preopens, partition,
  split_dir_mapping, is_dropped, under_canonical_exception,
}
use ephemora_cell.Sandbox.Dirs.Allowed.{IsAllowed, forbidden_canonical_match_iff}
use ephemora_cell.Sandbox.Dirs.Granted.{IsGranted, IsMount, grant_preopens_iff}
use ephemora_cell.Sandbox.Output.{
  Capture, Write, Sunk, stdout, stderr, sink, sink_all, sink_all-Sunk,
}

forbidden_canonical_match_iff_example :
    (is_some (forbidden_canonical_match (codes "/private/tmp/x")) ≡ false)
    ↔ IsAllowed (codes "/private/tmp/x")
forbidden_canonical_match_iff_example = forbidden_canonical_match_iff (codes "/private/tmp/x")

private_forbidden : forbidden_canonical_match (codes "/private/etc") ≡ some (codes "/private")
unfolding forbidden_canonical_match canonical_exceptions forbidden_canonical first_above starts_with
private_forbidden = refl

-- A directory that is swapped for a link after the check.
abbrev before : Text → Text
before path = path

abbrev after : Text → Text
after path = if path == codes "/data" then codes "/etc" else path

abbrev exists : Text → Bool
exists path = true

abbrev dirs : List Text
dirs = codes "/data::/" ∷ codes "/srv" ∷ codes "/etc::/e" ∷ []

swap_not_granted :
    grant_each after exists (filter_dangerous_dirs before dirs) ≡ (codes "/srv", codes "/srv") ∷ []
unfolding grant_each filter_dangerous_dirs is_dropped split_dir_mapping partition
    forbidden_canonical_match canonical_exceptions forbidden_canonical first_above starts_with
    dangerous_dirs under_canonical_exception
swap_not_granted = refl

grant_preopens_iff_example :
    Among
      (codes "/tmp/s", codes "/sandbox")
      (grant_preopens after exists (filter_dangerous_dirs before dirs) (some (codes "/tmp/s"))).0
    ↔ (IsGranted before after exists dirs (codes "/tmp/s", codes "/sandbox")
        ⊎ IsMount (some (codes "/tmp/s")) (codes "/tmp/s", codes "/sandbox"))
grant_preopens_iff_example =
    grant_preopens_iff before after exists dirs (some (codes "/tmp/s"))
      (codes "/tmp/s", codes "/sandbox")

abbrev capture : Capture
capture = record { budget = 3; out = []; err = [] }

abbrev writes : List Write
writes =
    record { stream = stdout; bytes = 1 ∷ 2 ∷ []; failed_after = none }
    ∷ record { stream = stderr; bytes = 3 ∷ 4 ∷ []; failed_after = none }
    ∷ record { stream = stderr; bytes = 5 ∷ []; failed_after = some 1 }
    ∷ []

writes_run : sink_all writes capture ≡ record { budget = 0; out = 1 ∷ 2 ∷ []; err = 5 ∷ [] }
unfolding sink_all sink
writes_run = refl

sink_all-Sunk_example : Sunk capture (sink_all writes capture)
sink_all-Sunk_example = sink_all-Sunk writes capture
