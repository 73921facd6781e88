-- ===== src/Profile.antt =====
-- Profile ids (profile/id.go). A raw id is the bytes of a peer id, and what go-libp2p does with it is
-- `Peers`: `Validate`, `Pretty` and `IDB58Decode` of its package peer.
use repo_4636_qri.Prelude.{
  Bool, false, true, not, Option, none, some, [], Text, codes, is_empty, after_prefix,
  if◌then◌else◌, Outcome, ok, err,
}

pub record Peers : Type 0 where
  pub is_peer : Text → Bool
  pub pretty : Text → Text
  pub decode : Text → Option Text

pub data IdError : Type 0 where
  bad_peer bad_base58 : IdError
  double_encoded invalid_id : Text → IdError

abbrev pub has_prefix : Text → Text → Bool
has_prefix p s = elim (after_prefix p s) [ none ↦ false | some r ↦ true ]

module _ (peers : Peers) where
  unfoldable pub encode : Text → Text
  encode id = peers.pretty id

  unfoldable pub id_is_empty : Text → Bool
  unfolding encode is_empty
  id_is_empty id = is_empty (encode id)

  unfoldable pub validate_id : Text → Outcome IdError (Unit {0})
  unfolding encode after_prefix
  validate_id id =
      let b64str = encode id in
      if not (peers.is_peer id)
      then err bad_peer
      else if has_prefix (codes "Qm") b64str
      then ok tt
      else if has_prefix (codes "9t") b64str
      then err (double_encoded b64str)
      else if has_prefix (codes "12D") b64str
      then ok tt
      else err (invalid_id b64str)

  unfoldable pub id_b58_decode : Text → Outcome IdError Text
  id_b58_decode proid = elim (peers.decode proid) [ none ↦ err bad_base58 | some pid ↦ ok pid ]

  unfoldable pub id_b58_decode_or_empty : Text → Text
  id_b58_decode_or_empty proid = elim (peers.decode proid) [ none ↦ [] | some pid ↦ pid ]
