-- ===== src/Examples/Sources.antt =====
-- The sources of the services at work over the toy libraries.
use model_crypt.Common.{[], ◌∷◌, ◌≡◌, refl, some}
use model_crypt.Common.Buffer.{Bytes, zeros, slice}
use model_crypt.Common.Result.{ok}
use model_crypt.Services.{IsSound, Inverts}
use model_crypt.Platform.Aead.{perform, new_context, add_aad, begin, process, open_sealed}
use model_crypt.Platform.Aead.Laws.{Opened, open_sealed-Opened}
use model_crypt.Platform.Implementation.{platform, platform-IsSound, platform-Inverts}
use model_crypt.Examples.Platform.{all_bytes}
use model_crypt.Examples.ToyLibraries.{toy_libraries, toy_evp, toy-IsDocumented, toy-Reverses}

platform-IsSound_example : IsSound (platform toy_libraries)
platform-IsSound_example = platform-IsSound toy_libraries toy-IsDocumented

platform-Inverts_example : Inverts (platform toy_libraries)
platform-Inverts_example = platform-Inverts toy_libraries toy-IsDocumented toy-Reverses

abbrev some_key : Bytes
some_key = zeros 32

abbrev some_text : Bytes
some_text = 5 ∷ 6 ∷ []

opened :
    (open_sealed toy_libraries
      (some some_key)
      (some (zeros 12))
      (some (1 ∷ []))
      1
      (some some_text)
      2
      (some (zeros 16))
      (some tt)
      tt).0
    ≡ ok some_text
unfolding open_sealed new_context begin add_aad process perform toy_evp all_bytes slice
opened = refl

open_sealed-Opened_example :
    Opened toy_libraries some_key (zeros 12) (1 ∷ []) some_text (slice (zeros 16) 0 16) some_text
open_sealed-Opened_example =
    open_sealed-Opened toy_libraries some_key (zeros 12) (1 ∷ []) some_text (zeros 16) tt some_text
      opened
