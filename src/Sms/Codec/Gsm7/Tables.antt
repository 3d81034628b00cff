-- ===== src/Sms/Codec/Gsm7/Tables.antt =====
-- The tables of the GSM-7 alphabet of src/sms/codec.rs.
use smsgate.Base.{ℕ, ◌==◌, in_range, if◌then◌else◌, List, [], ◌∷◌, ◌++◌, codes}

-- `GSM7`: the character of each septet.
unfoldable pub gsm7 : List ℕ
gsm7 =
    codes "@£$¥èéùìòÇ"
    ++ (0x0A ∷ 0xD8 ∷ 0xF8 ∷ 0x0D ∷ codes "ÅåΔ_ΦΓΛΩΠΨΣΘΞ"
        ++ (0x1B ∷ codes "ÆæßÉ !"
            ++ (0x22
                ∷ codes
                    "#¤%&'()*+,-./0123456789:;<=>?¡ABCDEFGHIJKLMNOPQRSTUVWXYZÄÖÑÜ§¿abcdefghijklmnopqrstuvwxyzäöñüà")))

-- The character after an escape, a space if there is none.
unfoldable pub gsm7_extension : ℕ → ℕ
gsm7_extension c =
    if c == 0x0A
    then 0x0C
    else if c == 0x14
    then 0x5E
    else if c == 0x28
    then 0x7B
    else if c == 0x29
    then 0x7D
    else if c == 0x2F
    then 0x5C
    else if c == 0x3C
    then 0x5B
    else if c == 0x3D
    then 0x7E
    else if c == 0x3E
    then 0x5D
    else if c == 0x40
    then 0x7C
    else if c == 0x65
    then 0x20AC
    else 0x20

-- The value of the first arm whose character it is.
unfoldable pub arm : ℕ → List (ℕ × List ℕ) → List ℕ → List ℕ
arm cp [] other = other
arm cp ((c, septets) ∷ arms) other = if c == cp then septets else arm cp arms other

-- The arms above the ASCII range.
unfoldable pub first_arms : List (ℕ × List ℕ)
first_arms =
    (0x24, 0x02 ∷ [])
    ∷ (0x40, 0x00 ∷ [])
    ∷ (0x5F, 0x11 ∷ [])
    ∷ (0x60, [])
    ∷ (0x5B, 0x1B ∷ 0x3C ∷ [])
    ∷ (0x5C, 0x1B ∷ 0x2F ∷ [])
    ∷ (0x5D, 0x1B ∷ 0x3E ∷ [])
    ∷ (0x5E, 0x1B ∷ 0x14 ∷ [])
    ∷ (0x7B, 0x1B ∷ 0x28 ∷ [])
    ∷ (0x7C, 0x1B ∷ 0x40 ∷ [])
    ∷ (0x7D, 0x1B ∷ 0x29 ∷ [])
    ∷ (0x7E, 0x1B ∷ 0x3D ∷ [])
    ∷ []

-- The arms below it.
unfoldable pub last_arms : List (ℕ × List ℕ)
last_arms =
    (0x0A, 0x0A ∷ [])
    ∷ (0x0D, 0x0D ∷ [])
    ∷ (0x0C, 0x1B ∷ 0x0A ∷ [])
    ∷ (0x00A1, 0x40 ∷ [])
    ∷ (0x00A3, 0x01 ∷ [])
    ∷ (0x00A4, 0x24 ∷ [])
    ∷ (0x00A5, 0x03 ∷ [])
    ∷ (0x00A7, 0x5F ∷ [])
    ∷ (0x00BF, 0x60 ∷ [])
    ∷ (0x00C4, 0x5B ∷ [])
    ∷ (0x00C5, 0x0E ∷ [])
    ∷ (0x00C6, 0x1C ∷ [])
    ∷ (0x00C7, 0x09 ∷ [])
    ∷ (0x00C9, 0x1F ∷ [])
    ∷ (0x00D1, 0x5D ∷ [])
    ∷ (0x00D6, 0x5C ∷ [])
    ∷ (0x00D8, 0x0B ∷ [])
    ∷ (0x00DC, 0x5E ∷ [])
    ∷ (0x00DF, 0x1E ∷ [])
    ∷ (0x00E0, 0x7F ∷ [])
    ∷ (0x00E4, 0x7B ∷ [])
    ∷ (0x00E5, 0x0F ∷ [])
    ∷ (0x00E6, 0x1D ∷ [])
    ∷ (0x00E8, 0x04 ∷ [])
    ∷ (0x00E9, 0x05 ∷ [])
    ∷ (0x00EC, 0x07 ∷ [])
    ∷ (0x00F1, 0x7D ∷ [])
    ∷ (0x00F2, 0x08 ∷ [])
    ∷ (0x00F6, 0x7C ∷ [])
    ∷ (0x00F8, 0x0C ∷ [])
    ∷ (0x00F9, 0x06 ∷ [])
    ∷ (0x00FC, 0x7E ∷ [])
    ∷ (0x0393, 0x13 ∷ [])
    ∷ (0x0394, 0x10 ∷ [])
    ∷ (0x0398, 0x19 ∷ [])
    ∷ (0x039B, 0x14 ∷ [])
    ∷ (0x039E, 0x1A ∷ [])
    ∷ (0x03A0, 0x16 ∷ [])
    ∷ (0x03A3, 0x18 ∷ [])
    ∷ (0x03A6, 0x12 ∷ [])
    ∷ (0x03A8, 0x17 ∷ [])
    ∷ (0x03A9, 0x15 ∷ [])
    ∷ (0x20AC, 0x1B ∷ 0x65 ∷ [])
    ∷ []

-- The septets of a character, none if it has no place in the alphabet.
unfoldable pub encode_gsm7_char : ℕ → List ℕ
unfolding arm first_arms last_arms
encode_gsm7_char cp =
    arm cp first_arms (if in_range 0x20 0x7E cp then cp ∷ [] else arm cp last_arms [])
