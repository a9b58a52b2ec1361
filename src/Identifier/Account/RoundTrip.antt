-- ===== src/Identifier/Account/RoundTrip.antt =====
-- Decoding an account identifier that was encoded.
use client_sdk_python.Base.{◌≡◌, ◌⊎◌}
use client_sdk_python.Identifier.Text.{Text}
use client_sdk_python.Identifier.Account.{dm, tdm, pdm, ddm}

-- A prefix of the code: `dm`, `tdm`, `pdm` or `ddm`.
abbrev pub IsHrp : Text → Type 0
IsHrp hrp = (hrp ≡ dm) ⊎ ((hrp ≡ tdm) ⊎ ((hrp ≡ pdm) ⊎ (hrp ≡ ddm)))
