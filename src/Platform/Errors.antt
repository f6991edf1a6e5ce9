-- ===== src/Platform/Errors.antt =====
-- Go errors as the source makes and reads them, and results of fallible calls.
use Prim.Native.String.{◌++◌ as str_append}
use node_readiness_controlle.Prelude.{String}

pub data Error : Type 0 where
  -- an error of the API server or of a library: its reason and its message
  api : String → String → Error
  -- `fmt.Errorf("… %w", err)`: the text before the error
  wrapped : String → Error → Error
  -- `fmt.Errorf("…")`
  text : String → Error

-- `err.Error()`
unfoldable pub error_string : Error → String
error_string (api reason message) = message
error_string (wrapped s e) = str_append s (error_string e)
error_string (text s) = s

pub data Result (A : Type 0) : Type 0 where
  ok : A → Result A
  err : Error → Result A
