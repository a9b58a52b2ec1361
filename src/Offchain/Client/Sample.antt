-- ===== src/Offchain/Client/Sample.antt =====
-- Wallets for the runs on concrete data.
use client_sdk_python.Base.{
  refl, str_eq, none, some, [], ◌∷◌, ◌++◌, map, replicate, if◌then◌else◌, ok, true, false,
}
use client_sdk_python.Base.Int.{pos}
use client_sdk_python.Bcs.Ascii.{ascii}
use client_sdk_python.Identifier.Text.{Text, ascii_lower, ascii_upper}
use client_sdk_python.Identifier.Account.{dm}
use client_sdk_python.JsonRpc.Accounts.{Account, parent_vasp}
use client_sdk_python.Jws.Sample.{verify}
use client_sdk_python.Offchain.Wallet.{Wallet}

-- The identifiers of the addresses 1 and 2.
abbrev pub alice_text : Text
alice_text =
    dm
    ++ (49
        ∷ 112
        ∷ (replicate 25 113
            ++ (121 ∷ (replicate 13 113 ++ (103 ∷ 52 ∷ 106 ∷ 114 ∷ 120 ∷ 113 ∷ [])))))

abbrev pub bob_text : Text
bob_text =
    dm
    ++ (49
        ∷ 112
        ∷ (replicate 25 113
            ++ (103 ∷ (replicate 13 113 ++ (103 ∷ 107 ∷ 117 ∷ 56 ∷ 106 ∷ 118 ∷ [])))))

-- A wallet at the address of bob, on a chain without other accounts.
abbrev pub wallet : Wallet
wallet = record {
  hrp = dm;
  my_compliance_key_account_id = bob_text;
  supported_currency_codes = none;
  lookup = λ t. ok none;
  currencies = ok (record { code = "XUS"; to_xdx = λ amount. amount } ∷ []);
  dual_attestation_limit = ok (pos 1000);
  recursion_limit = 2;
  points = λ s. if str_eq s "alice" then alice_text else bob_text;
  case = record {
    lower = map ascii_lower;
    upper = map ascii_upper;
    lower-IsAscii = λ t h. refl;
    upper-IsAscii = λ t h. refl;
  };
  utf8 = record { encode = λ t. some t; decode = λ t. some t };
  is_key = λ bytes. true;
  verify = λ key sig msg. false;
}

-- Every account of this chain has a base url and the key 10.
abbrev pub account : Account
account = record {
  role_type = parent_vasp;
  parent_vasp_address = [];
  base_url = 104 ∷ 47 ∷ [];
  compliance_key = 48 ∷ 97 ∷ [];
  sequence_number = 0;
  vasp_domain_events_key = [];
}

abbrev pub keyed_wallet : Wallet
keyed_wallet = record wallet {
  lookup = λ t. ok (some account);
  utf8 = ascii;
  verify = λ key. verify;
}
