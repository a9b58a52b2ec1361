-- ===== src/Bcs/Error.antt =====
-- What the serializers raise (src/diem/serde_types/__init__.py, and Python's own exceptions).

-- The messages of `SerializationError`.
pub data SerializationFault : Type 0 where
  length_too_big variant_index_too_big depth_exceeded unexpected_type wrong_value :
      SerializationFault

-- The messages of `DeserializationError`.
pub data DeserializationFault : Type 0 where
  input_too_short unexpected_bool invalid_unicode wrong_option_tag : DeserializationFault
  uleb_overflow uleb_zero_digit length_too_big depth_exceeded : DeserializationFault
  unexpected_type unexpected_variant_index not_fully_read : DeserializationFault

-- `type_error` stands for whatever Python does with a value of another type than the one asked for.
pub data Error : Type 0 where
  serialization_error : SerializationFault → Error
  deserialization_error : DeserializationFault → Error
  overflow_error index_error unicode_encode_error not_implemented type_error value_error : Error
