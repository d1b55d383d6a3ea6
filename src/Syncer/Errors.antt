-- ===== src/Syncer/Errors.antt =====
-- pkg/syncer/error.go: the text of the errors that a run collects.
use cloudstack_csi_driver.Prelude.{ℕ, suc, String, ◌<>◌, List, [], ◌∷◌}
use cloudstack_csi_driver.Prelude.Strconv.{itoa}

-- The loop: the numbers start where the text so far ends.
unfoldable pub error_lines : ℕ → List String → String
unfolding itoa
error_lines i [] = ""
error_lines i (e ∷ errs) =
    ("\tError " <> (itoa i <> (": " <> (e <> "\n")))) <> error_lines (suc i) errs

-- `combinedErrors.Error`, of the texts of the errors.
unfoldable pub error_text : List String → String
unfolding error_lines
error_text errs = "Collected errors:\n" <> error_lines 0 errs
