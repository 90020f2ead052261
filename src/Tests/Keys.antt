-- ===== src/Tests/Keys.antt =====
-- Keys, over a concrete cache.
use estrys.Common.{
  String, str_eq, eq_refl, if◌then◌else◌, Option, none, some, List, [], ◌∷◌, ◌≡◌, refl, sym, ap,
  arith,
}
use estrys.Outcome.{Result, ok, err, message, pure, fail}
use estrys.Models.{KeyKind, rsa, ecdsa, ed25519, ed25519_pointer, other_kind, PublicKey}
use estrys.Outcome.Fallible.{ok_injective}
use estrys.Crypto.{KeyServer, KeyDecoder, LruCache, fetch_key, KeyEncoder, format_pub_key}
use estrys.Crypto.RoundTrip.{IsExact, fetch_key-format_pub_key}
use estrys.Crypto.Laws.{IsLru}
use estrys.Tests.Services.{bob_key}

abbrev Keys : Type 0
Keys = List (String × PublicKey)

abbrev kept : String → Keys → Option PublicKey
kept id [] = none
kept id ((k, key) ∷ keys) = let rest = kept id keys in if str_eq k id then some key else rest

abbrev cache : LruCache Keys
cache = record { get = λ id w. (kept id w, w); add = λ id key w. (id, key) ∷ w }

cache-IsLru : IsLru cache
cache-IsLru = record {
  get-add = λ id key w. rw (eq_refl id) refl;
  get_again = λ id key w u h. ground (arith, h);
}

abbrev server : KeyServer Keys
server = record {
  Request = String;
  Response = String;
  new_request = λ id. ok id;
  client_do = λ request. pure "body";
  read_all = λ response. ok response;
}

abbrev silent : KeyServer Keys
silent = record {
  Request = String;
  Response = String;
  new_request = λ id. ok id;
  client_do = λ request. fail (message "no route");
  read_all = λ response. ok response;
}

abbrev decoder : KeyDecoder
decoder = record {
  key_pem = λ body. ok "pem";
  pem_decode = λ pem. some "bytes";
  parse_public_key = λ bytes. ok bob_key;
}

-- A codec for keys of one kind
abbrev marshalled : KeyKind → String → Result String
marshalled rsa bytes = ok bytes
marshalled _ bytes = err (message "unknown kind")

abbrev encoder : KeyEncoder
encoder = record {
  marshal_public_key = λ key. marshalled key.kind key.bytes;
  pem_encode = λ kind bytes. bytes;
}

abbrev exact_decoder : KeyDecoder
exact_decoder = record {
  key_pem = λ body. ok body;
  pem_decode = λ pem. some pem;
  parse_public_key = λ bytes. ok (record { kind = rsa; bytes = bytes });
}

parsed :
    (kind : KeyKind) (held bytes : String)
    → marshalled kind held ≡ ok bytes
    → exact_decoder.parse_public_key bytes ≡ ok (record { kind = kind; bytes = held })
parsed rsa held bytes h = ap (λ b. ok (record { kind = rsa; bytes = b })) (sym (ok_injective h))
parsed ecdsa held bytes h = cc h
parsed ed25519 held bytes h = cc h
parsed ed25519_pointer held bytes h = cc h
parsed other_kind held bytes h = cc h

exact : IsExact encoder exact_decoder
exact = record {
  pem_decode-encode = λ kind bytes. refl;
  parse-marshal = λ key bytes h. parsed key.kind key.bytes bytes h;
}

abbrev showing : KeyServer Keys
showing = record {
  Request = String;
  Response = String;
  new_request = λ id. ok id;
  client_do = λ request. pure "p";
  read_all = λ response. ok response;
}

fetch_key-format_pub_key_example :
    fetch_key showing exact_decoder cache "https://here/users/alice" []
    ≡ (ok bob_key, ("https://here/users/alice", bob_key) ∷ [])
unfolding pure format_pub_key
fetch_key-format_pub_key_example =
    fetch_key-format_pub_key showing encoder exact_decoder cache exact "https://here/users/alice"
      bob_key "p" "p" "https://here/users/alice" "p" [] [] [] refl refl refl refl refl refl
