-- ===== src/Cose/Sign.antt =====
-- SignDetachedAt, SignAt, signAt and signDetachedAt of cose/cose.go.
use darkbio_crypto_go.Base.{Option, none, some, [], ◌++◌}
use darkbio_crypto_go.Base.Int.{ℤ}
use darkbio_crypto_go.Cbor.Types.{Bytes, Result}
use darkbio_crypto_go.Reflect.Types.{Ty, Val, ptr}
use darkbio_crypto_go.Reflect.Marshal.{marshal}
use darkbio_crypto_go.Cose.Outcome.{Outcome, returned, panicked, ◌>>=◌, or_return, or_panic}
use darkbio_crypto_go.Cose.Types.{
  domain_prefix, algorithm_xdsa, header_timestamp, sig_aad, sig_protected_header, sig_structure,
  cose_sign1, signature_context, sign1_of, sig_header_of, Signer,
}

-- cbor.Marshal(&sigAAD{...})
unfoldable pub marshal_aad : Bytes → Bytes → Result Bytes
marshal_aad domain auth =
    marshal (ptr sig_aad) (some (tt, (some (domain_prefix ++ domain), (auth, tt))))

-- cbor.Marshal(&sig), of a Sig_structure whose payload is not nil.
unfoldable pub marshal_sig_structure : Option Bytes → Bytes → Bytes → Result Bytes
marshal_sig_structure protected aad payload =
    marshal (ptr sig_structure)
      (some (tt, (signature_context, (protected, (some aad, (some payload, tt))))))

-- `signature, _ := signer.Sign(toBeSigned)`, which is dereferenced later.
abbrev pub signature_of : Signer → Bytes → Outcome Bytes
signature_of signer to_be_signed = elim (signer.sign to_be_signed) [
  | none ↦ panicked
  | some signature ↦ returned signature
]

unfoldable pub marshal_sig_header : Signer → ℤ → Result Bytes
marshal_sig_header signer timestamp =
    marshal (ptr sig_protected_header)
      (some (sig_header_of algorithm_xdsa header_timestamp signer.fingerprint timestamp))

unfoldable pub marshal_sign1 : Val cose_sign1 → Result Bytes
marshal_sign1 v = marshal (ptr cose_sign1) (some v)

unfoldable pub sign_embedded : Bytes → Bytes → Signer → Bytes → ℤ → Outcome Bytes
unfolding marshal_aad marshal_sig_header marshal_sig_structure marshal_sign1
sign_embedded embed auth signer domain timestamp = do
  aad ← or_panic (marshal_aad domain auth)
  protected ← or_panic (marshal_sig_header signer timestamp)
  to_be_signed ← or_panic (marshal_sig_structure (some protected) aad embed)
  signature ← signature_of signer to_be_signed
  or_panic (marshal_sign1 (sign1_of (some protected) (some embed) signature))

unfoldable pub sign_null : Bytes → Signer → Bytes → ℤ → Outcome Bytes
unfolding marshal_aad marshal_sig_header marshal_sig_structure marshal_sign1
sign_null auth signer domain timestamp = do
  aad ← or_panic (marshal_aad domain auth)
  protected ← or_panic (marshal_sig_header signer timestamp)
  to_be_signed ← or_panic (marshal_sig_structure (some protected) aad [])
  signature ← signature_of signer to_be_signed
  or_panic (marshal_sign1 (sign1_of (some protected) none signature))

-- A message of type `any` is a Go type with a value.
unfoldable pub sign_at : (t : Ty) → Val t → (u : Ty) → Val u → Signer → Bytes → ℤ → Outcome Bytes
unfolding sign_embedded
sign_at t to_embed u to_auth signer domain timestamp = do
  embed ← or_return (marshal t to_embed)
  auth ← or_return (marshal u to_auth)
  sign_embedded embed auth signer domain timestamp

unfoldable pub sign_detached_at : (u : Ty) → Val u → Signer → Bytes → ℤ → Outcome Bytes
unfolding sign_null
sign_detached_at u to_auth signer domain timestamp = do
  auth ← or_return (marshal u to_auth)
  sign_null auth signer domain timestamp

-- With `now` for time.Now().Unix().
unfoldable pub sign : (t : Ty) → Val t → (u : Ty) → Val u → Signer → Bytes → ℤ → Outcome Bytes
unfolding sign_at
sign t to_embed u to_auth signer domain now = sign_at t to_embed u to_auth signer domain now

unfoldable pub sign_detached : (u : Ty) → Val u → Signer → Bytes → ℤ → Outcome Bytes
unfolding sign_detached_at
sign_detached u to_auth signer domain now = sign_detached_at u to_auth signer domain now
