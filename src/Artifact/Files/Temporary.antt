-- ===== src/Artifact/Files/Temporary.antt =====
-- `unique_temporary_path` of lib/Compiler/Artifact.cpp.
use mathlib.Core.List.{append_cancel_left}
use native.Mathlib.Omega.{arith}
use deep_forge.Base.{to_string, ℕ, ◌^◌, ◌<◌, ◌≢◌, ap, ◌++◌, Text, text, length, length-append}
use deep_forge.Import.Keys.Canonical.{to_string-Injective}
use deep_forge.Artifact.Files.{unique_temporary_path}

-- Two temporary paths of one process for the same path differ where the numbers of the two calls do.
pub unique_temporary_path-separates :
    (pid m n : ℕ) (path : Text)
    → m < 2 ^ 64
    → n < 2 ^ 64
    → m ≢ n
    → unique_temporary_path pid m path ≢ unique_temporary_path pid n path
unfolding unique_temporary_path
unique_temporary_path-separates pid m n path hm hn differ h = differ (
    to_string-Injective m n hm hn (
      append_cancel_left (text ".") _ _ (
        append_cancel_left (to_string pid) _ _
          (append_cancel_left (text ".tmp.") _ _ (append_cancel_left path _ _ h)))))

-- A temporary path is longer than the path that it is for.
pub unique_temporary_path-ne : (pid n : ℕ) (path : Text) → unique_temporary_path pid n path ≢ path
unfolding unique_temporary_path text
unique_temporary_path-ne pid n path h =
    let tail = text ".tmp." ++ (to_string pid ++ (text "." ++ to_string n)) in
    omega (arith, ap length h, length-append path tail)
