-- ===== src/Frames/Tests.antt =====
-- Frames of small messages.
use nexus_auth.Prelude.{◌<◌, ◌≡◌, refl, [], ◌∷◌, ◌++◌, Bytes, ok, arith}
use nexus_auth.Lab.{lab_codecs, log_ids-IsFaithful}
use nexus_auth.Storage.Types.{LogId}
use nexus_auth.Frames.{max_frame, from_u32_be, encode_frame, read_frame, read_frame-encode_frame}

abbrev position : LogId
position = record { term = 1; leader = 2; index = 300 }

abbrev position_frame : Bytes
position_frame = 0 ∷ 0 ∷ 0 ∷ 3 ∷ 1 ∷ 2 ∷ 300 ∷ []

position_encoded : encode_frame lab_codecs.log_ids position ≡ ok position_frame
unfolding encode_frame
position_encoded = refl

read_frame-encode_frame_example :
    read_frame lab_codecs.log_ids (position_frame ++ (0 ∷ 0 ∷ [])) ≡ ok (position, 0 ∷ 0 ∷ [])
read_frame-encode_frame_example =
    read_frame-encode_frame lab_codecs.log_ids position position_frame (0 ∷ 0 ∷ [])
      log_ids-IsFaithful position_encoded

huge : max_frame < from_u32_be (255 ∷ 0 ∷ 0 ∷ 0 ∷ [])
unfolding from_u32_be
huge = omega arith
