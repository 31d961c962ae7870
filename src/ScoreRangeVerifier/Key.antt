-- ===== src/ScoreRangeVerifier/Key.antt =====
-- The embedded verification key of contracts/score-range-verifier/src/lib.rs.
use stellar_did_credit.Base.{[], ◌∷◌}
use stellar_did_credit.ScoreRangeVerifier.State.{Bytes, VerificationKey}

abbrev alpha_bytes : Bytes
alpha_bytes =
    0x01 ∷ 0xFB ∷ 0x00 ∷ 0xF7 ∷ 0x67 ∷ 0xE9 ∷ 0x9B ∷ 0x6A ∷ 0x77 ∷ 0x57 ∷ 0x53 ∷ 0x8D ∷ 0x1D ∷ 0x99
    ∷ 0xB6 ∷ 0x94 ∷ 0x31 ∷ 0xC0 ∷ 0x78 ∷ 0x40 ∷ 0xEF ∷ 0x24 ∷ 0x83 ∷ 0xFD ∷ 0xE5 ∷ 0x54 ∷ 0x84
    ∷ 0x45 ∷ 0xDE ∷ 0x60 ∷ 0x91 ∷ 0x6E ∷ 0x5A ∷ 0xF8 ∷ 0xC2 ∷ 0x85 ∷ 0xD9 ∷ 0x46 ∷ 0x83 ∷ 0x8C
    ∷ 0xB5 ∷ 0x72 ∷ 0x81 ∷ 0x65 ∷ 0xF9 ∷ 0x8A ∷ 0x21 ∷ 0x55 ∷ 0x16 ∷ 0xC7 ∷ 0xB9 ∷ 0x98 ∷ 0x45
    ∷ 0xD2 ∷ 0xD7 ∷ 0x74 ∷ 0x8E ∷ 0x42 ∷ 0x2C ∷ 0xFF ∷ 0xEE ∷ 0x6D ∷ 0x10 ∷ 0x2A ∷ 0xF5 ∷ 0xEE
    ∷ 0x6C ∷ 0x55 ∷ 0x34 ∷ 0xB5 ∷ 0xC9 ∷ 0x77 ∷ 0x32 ∷ 0xAB ∷ 0x1E ∷ 0x18 ∷ 0xAC ∷ 0xD4 ∷ 0x1A
    ∷ 0x42 ∷ 0x7E ∷ 0x23 ∷ 0x0A ∷ 0x8E ∷ 0x47 ∷ 0x76 ∷ 0x7B ∷ 0x6D ∷ 0xB4 ∷ 0x22 ∷ 0x08 ∷ 0x8C
    ∷ 0x0E ∷ 0x26 ∷ 0xC7 ∷ 0xE9 ∷ []

abbrev beta_bytes : Bytes
beta_bytes =
    0x0F ∷ 0xE9 ∷ 0xF3 ∷ 0x4C ∷ 0x58 ∷ 0x6E ∷ 0x46 ∷ 0x5B ∷ 0xB8 ∷ 0xEB ∷ 0xCC ∷ 0xB1 ∷ 0x00 ∷ 0x82
    ∷ 0x9D ∷ 0x7A ∷ 0x54 ∷ 0x71 ∷ 0x0E ∷ 0xD3 ∷ 0x0F ∷ 0x94 ∷ 0x46 ∷ 0x16 ∷ 0x81 ∷ 0x71 ∷ 0x80
    ∷ 0x3B ∷ 0x66 ∷ 0x0D ∷ 0xA2 ∷ 0x80 ∷ 0xC3 ∷ 0x0C ∷ 0x12 ∷ 0x8C ∷ 0xAF ∷ 0x5B ∷ 0x78 ∷ 0x7B
    ∷ 0x02 ∷ 0xB6 ∷ 0x70 ∷ 0xA0 ∷ 0xF6 ∷ 0xD8 ∷ 0xBC ∷ 0xE7 ∷ 0x0C ∷ 0x86 ∷ 0x9C ∷ 0x1B ∷ 0xCE
    ∷ 0x0B ∷ 0x97 ∷ 0x18 ∷ 0x6F ∷ 0xCF ∷ 0xD5 ∷ 0x22 ∷ 0xFB ∷ 0xAF ∷ 0x43 ∷ 0xB1 ∷ 0x0C ∷ 0xB6
    ∷ 0x52 ∷ 0xE2 ∷ 0x38 ∷ 0x9E ∷ 0x36 ∷ 0x97 ∷ 0xBB ∷ 0x98 ∷ 0x87 ∷ 0x9F ∷ 0x4F ∷ 0x38 ∷ 0xEC
    ∷ 0x97 ∷ 0xDA ∷ 0x8C ∷ 0x8E ∷ 0x74 ∷ 0xEE ∷ 0x5C ∷ 0x05 ∷ 0xBB ∷ 0x19 ∷ 0x11 ∷ 0x91 ∷ 0xF4
    ∷ 0x95 ∷ 0xFB ∷ 0x58 ∷ 0xED ∷ 0x11 ∷ 0x17 ∷ 0x1B ∷ 0x5C ∷ 0x91 ∷ 0x41 ∷ 0x9E ∷ 0xAF ∷ 0x77
    ∷ 0x14 ∷ 0x3D ∷ 0x86 ∷ 0xCE ∷ 0xB2 ∷ 0xD1 ∷ 0x50 ∷ 0x19 ∷ 0x61 ∷ 0x80 ∷ 0x2C ∷ 0x23 ∷ 0xFE
    ∷ 0xF3 ∷ 0x07 ∷ 0x7B ∷ 0x95 ∷ 0x88 ∷ 0x3D ∷ 0x8A ∷ 0x9A ∷ 0xB4 ∷ 0xEB ∷ 0x9D ∷ 0xDE ∷ 0x5B
    ∷ 0xE4 ∷ 0xE2 ∷ 0x6F ∷ 0x64 ∷ 0x66 ∷ 0xBD ∷ 0xEE ∷ 0x4A ∷ 0x6B ∷ 0xF2 ∷ 0xA0 ∷ 0x24 ∷ 0x7F
    ∷ 0x09 ∷ 0x6B ∷ 0x0D ∷ 0xD1 ∷ 0x73 ∷ 0xC1 ∷ 0xDD ∷ 0xD2 ∷ 0x83 ∷ 0x52 ∷ 0xFF ∷ 0xC2 ∷ 0x0B
    ∷ 0xEE ∷ 0x8B ∷ 0x9B ∷ 0xA3 ∷ 0x91 ∷ 0xCE ∷ 0x14 ∷ 0x07 ∷ 0x88 ∷ 0x34 ∷ 0x18 ∷ 0xE3 ∷ 0xC4
    ∷ 0xBD ∷ 0x98 ∷ 0x89 ∷ 0xCB ∷ 0xFB ∷ 0x1C ∷ 0x89 ∷ 0xAC ∷ 0x5F ∷ 0x1D ∷ 0x70 ∷ 0x0A ∷ 0xBE
    ∷ 0x33 ∷ 0x98 ∷ 0xEB ∷ 0x80 ∷ 0xBF ∷ 0xAF ∷ 0xD8 ∷ 0xEA ∷ 0x8C ∷ []

abbrev gamma_bytes : Bytes
gamma_bytes =
    0x0E ∷ 0x92 ∷ 0x81 ∷ 0xC8 ∷ 0x7F ∷ 0x39 ∷ 0x0F ∷ 0x55 ∷ 0x67 ∷ 0x02 ∷ 0xA7 ∷ 0x47 ∷ 0xDE ∷ 0x72
    ∷ 0x25 ∷ 0x91 ∷ 0x1F ∷ 0xCA ∷ 0xFC ∷ 0x22 ∷ 0x29 ∷ 0x63 ∷ 0xC4 ∷ 0xC2 ∷ 0x02 ∷ 0x18 ∷ 0x28
    ∷ 0xB3 ∷ 0x6D ∷ 0x48 ∷ 0xC1 ∷ 0x45 ∷ 0xF1 ∷ 0x73 ∷ 0xDF ∷ 0x87 ∷ 0x89 ∷ 0xAE ∷ 0x90 ∷ 0x0D
    ∷ 0x0A ∷ 0xE1 ∷ 0x8B ∷ 0x9F ∷ 0xCD ∷ 0x8C ∷ 0x3E ∷ 0xD8 ∷ 0x04 ∷ 0x97 ∷ 0x54 ∷ 0xEE ∷ 0x8D
    ∷ 0x1A ∷ 0xFC ∷ 0x22 ∷ 0xA2 ∷ 0x60 ∷ 0xBB ∷ 0x47 ∷ 0xE6 ∷ 0x9D ∷ 0x25 ∷ 0x1F ∷ 0x18 ∷ 0xB0
    ∷ 0xFD ∷ 0x1A ∷ 0x65 ∷ 0x29 ∷ 0xAD ∷ 0x4C ∷ 0x20 ∷ 0x3A ∷ 0x35 ∷ 0xD6 ∷ 0xB6 ∷ 0x0D ∷ 0x4F
    ∷ 0x27 ∷ 0x66 ∷ 0x4C ∷ 0x23 ∷ 0x58 ∷ 0x56 ∷ 0x90 ∷ 0x9D ∷ 0x7D ∷ 0x67 ∷ 0xD4 ∷ 0x9E ∷ 0x03
    ∷ 0x39 ∷ 0x85 ∷ 0x8D ∷ 0xD6 ∷ 0x10 ∷ 0x75 ∷ 0x20 ∷ 0x30 ∷ 0x2A ∷ 0xA7 ∷ 0x48 ∷ 0xC6 ∷ 0x7E
    ∷ 0xE7 ∷ 0x8F ∷ 0x55 ∷ 0x4A ∷ 0xA3 ∷ 0x82 ∷ 0xCD ∷ 0xDA ∷ 0xD1 ∷ 0x33 ∷ 0xE3 ∷ 0x42 ∷ 0xDC
    ∷ 0x2B ∷ 0x04 ∷ 0x50 ∷ 0xED ∷ 0x42 ∷ 0x9E ∷ 0x3A ∷ 0xC9 ∷ 0xB1 ∷ 0x81 ∷ 0xC4 ∷ 0xAE ∷ 0x33
    ∷ 0xF1 ∷ 0xB0 ∷ 0x0A ∷ 0x10 ∷ 0x2F ∷ 0xA6 ∷ 0xDD ∷ 0x83 ∷ 0x8F ∷ 0x52 ∷ 0x41 ∷ 0x1B ∷ 0xBE
    ∷ 0x12 ∷ 0x21 ∷ 0xF4 ∷ 0x06 ∷ 0x6F ∷ 0xAC ∷ 0x51 ∷ 0x31 ∷ 0xC5 ∷ 0x62 ∷ 0x53 ∷ 0x9A ∷ 0x69
    ∷ 0x72 ∷ 0xF8 ∷ 0x92 ∷ 0xE4 ∷ 0x2B ∷ 0x2B ∷ 0xAE ∷ 0xC1 ∷ 0xEA ∷ 0xC7 ∷ 0x10 ∷ 0x9E ∷ 0x38
    ∷ 0xE4 ∷ 0x5E ∷ 0xA6 ∷ 0x52 ∷ 0x9F ∷ 0xC4 ∷ 0x7C ∷ 0x0B ∷ 0x90 ∷ 0xCA ∷ 0x9D ∷ 0xE1 ∷ 0x7B
    ∷ 0x5A ∷ 0xE9 ∷ 0x89 ∷ 0xF5 ∷ 0x88 ∷ 0x93 ∷ 0x5D ∷ 0x02 ∷ 0x8F ∷ []

abbrev delta_bytes : Bytes
delta_bytes =
    0x15 ∷ 0x19 ∷ 0x6C ∷ 0x13 ∷ 0xD3 ∷ 0x47 ∷ 0x8D ∷ 0xDF ∷ 0x21 ∷ 0x64 ∷ 0x40 ∷ 0x4F ∷ 0x53 ∷ 0x11
    ∷ 0x5C ∷ 0x6B ∷ 0x22 ∷ 0x56 ∷ 0x93 ∷ 0x2C ∷ 0xE5 ∷ 0x70 ∷ 0x94 ∷ 0x63 ∷ 0x5D ∷ 0xC3 ∷ 0x74
    ∷ 0xBE ∷ 0xF7 ∷ 0xB4 ∷ 0xCA ∷ 0xF2 ∷ 0x62 ∷ 0x62 ∷ 0xBC ∷ 0x2F ∷ 0xE3 ∷ 0xF0 ∷ 0x7B ∷ 0xDE
    ∷ 0x59 ∷ 0xBC ∷ 0xA0 ∷ 0x98 ∷ 0xC4 ∷ 0xA6 ∷ 0x8F ∷ 0x72 ∷ 0x11 ∷ 0xA1 ∷ 0xDE ∷ 0xC4 ∷ 0x2A
    ∷ 0xE4 ∷ 0xE8 ∷ 0x97 ∷ 0x3E ∷ 0x96 ∷ 0x0E ∷ 0xEA ∷ 0x0F ∷ 0x5B ∷ 0x53 ∷ 0xF4 ∷ 0x7A ∷ 0x62
    ∷ 0xCC ∷ 0x84 ∷ 0x86 ∷ 0x37 ∷ 0x8E ∷ 0x89 ∷ 0x15 ∷ 0xB0 ∷ 0x39 ∷ 0x93 ∷ 0xC4 ∷ 0x88 ∷ 0x30
    ∷ 0x59 ∷ 0x0D ∷ 0xAE ∷ 0x62 ∷ 0x4F ∷ 0x91 ∷ 0xE3 ∷ 0xA0 ∷ 0xBB ∷ 0x21 ∷ 0x56 ∷ 0x7F ∷ 0x28
    ∷ 0x03 ∷ 0x2C ∷ 0x7C ∷ 0xC2 ∷ 0x02 ∷ 0x38 ∷ 0xD4 ∷ 0x6A ∷ 0x97 ∷ 0x46 ∷ 0x29 ∷ 0x7D ∷ 0x81
    ∷ 0x1D ∷ 0xA6 ∷ 0x37 ∷ 0xF3 ∷ 0x59 ∷ 0xA1 ∷ 0x26 ∷ 0xDF ∷ 0xB5 ∷ 0x6E ∷ 0xE7 ∷ 0x49 ∷ 0x65
    ∷ 0xA7 ∷ 0x4B ∷ 0xDD ∷ 0x5D ∷ 0x8E ∷ 0x21 ∷ 0x98 ∷ 0x30 ∷ 0x06 ∷ 0x00 ∷ 0x8F ∷ 0x2C ∷ 0xAC
    ∷ 0xEF ∷ 0x59 ∷ 0x2C ∷ 0xE0 ∷ 0x38 ∷ 0xB7 ∷ 0xC3 ∷ 0xCA ∷ 0x95 ∷ 0x76 ∷ 0x00 ∷ 0x24 ∷ 0x41
    ∷ 0x04 ∷ 0x0C ∷ 0x86 ∷ 0x22 ∷ 0x2F ∷ 0xD5 ∷ 0x11 ∷ 0x27 ∷ 0x6D ∷ 0x95 ∷ 0xA1 ∷ 0x63 ∷ 0x25
    ∷ 0x55 ∷ 0x15 ∷ 0xD3 ∷ 0x7B ∷ 0xCE ∷ 0x59 ∷ 0xBB ∷ 0x36 ∷ 0xDD ∷ 0x2E ∷ 0x02 ∷ 0x05 ∷ 0x62
    ∷ 0x39 ∷ 0xB0 ∷ 0xDB ∷ 0xA0 ∷ 0xBA ∷ 0xAE ∷ 0xDD ∷ 0x58 ∷ 0x06 ∷ 0x14 ∷ 0x86 ∷ 0xFB ∷ 0x80
    ∷ 0xDA ∷ 0xC2 ∷ 0xAC ∷ 0x01 ∷ 0x7C ∷ 0xF5 ∷ 0x39 ∷ 0xB6 ∷ 0x5A ∷ []

abbrev gamma_abc_0 : Bytes
gamma_abc_0 =
    0x06 ∷ 0xE9 ∷ 0x40 ∷ 0x60 ∷ 0xEA ∷ 0x72 ∷ 0xA3 ∷ 0xB9 ∷ 0xFC ∷ 0xCA ∷ 0x0D ∷ 0x40 ∷ 0xD6 ∷ 0x07
    ∷ 0xE8 ∷ 0x88 ∷ 0x36 ∷ 0x66 ∷ 0x2E ∷ 0x6C ∷ 0x23 ∷ 0x98 ∷ 0x83 ∷ 0x24 ∷ 0x34 ∷ 0x41 ∷ 0xD0
    ∷ 0x37 ∷ 0x0F ∷ 0x78 ∷ 0x3B ∷ 0xBB ∷ 0xDB ∷ 0x25 ∷ 0x88 ∷ 0xA2 ∷ 0x55 ∷ 0xEE ∷ 0x11 ∷ 0x8E
    ∷ 0x72 ∷ 0x47 ∷ 0x2B ∷ 0xD6 ∷ 0xD0 ∷ 0x30 ∷ 0x47 ∷ 0xFE ∷ 0x06 ∷ 0xEE ∷ 0x12 ∷ 0x71 ∷ 0xA0
    ∷ 0x68 ∷ 0xB4 ∷ 0x07 ∷ 0x48 ∷ 0xF6 ∷ 0xEC ∷ 0x21 ∷ 0xB6 ∷ 0x4E ∷ 0x61 ∷ 0x3F ∷ 0x3B ∷ 0xC4
    ∷ 0x1A ∷ 0x76 ∷ 0x7A ∷ 0x3C ∷ 0xCE ∷ 0x02 ∷ 0xAE ∷ 0x6D ∷ 0x75 ∷ 0xDE ∷ 0x47 ∷ 0x1B ∷ 0x10
    ∷ 0xCC ∷ 0x09 ∷ 0x1E ∷ 0xFE ∷ 0x32 ∷ 0xB8 ∷ 0x32 ∷ 0x3C ∷ 0x54 ∷ 0x40 ∷ 0x47 ∷ 0x8B ∷ 0xBB
    ∷ 0xB1 ∷ 0x76 ∷ 0x23 ∷ 0xE1 ∷ []

abbrev gamma_abc_1 : Bytes
gamma_abc_1 =
    0x07 ∷ 0xB4 ∷ 0xBC ∷ 0xFC ∷ 0xC3 ∷ 0xE8 ∷ 0xF8 ∷ 0x97 ∷ 0xE6 ∷ 0xAB ∷ 0x3D ∷ 0xED ∷ 0x1E ∷ 0xA2
    ∷ 0x04 ∷ 0x4C ∷ 0x24 ∷ 0xBF ∷ 0x3B ∷ 0x7C ∷ 0x39 ∷ 0xA1 ∷ 0x0D ∷ 0xAC ∷ 0x2E ∷ 0xE5 ∷ 0xD2
    ∷ 0xAC ∷ 0xA4 ∷ 0x28 ∷ 0x27 ∷ 0xC5 ∷ 0x92 ∷ 0xF6 ∷ 0x51 ∷ 0x6B ∷ 0xD1 ∷ 0x80 ∷ 0x49 ∷ 0xEB
    ∷ 0x54 ∷ 0xC1 ∷ 0xF3 ∷ 0xAF ∷ 0xE6 ∷ 0x14 ∷ 0xCB ∷ 0x40 ∷ 0x0C ∷ 0xEC ∷ 0xCE ∷ 0x5D ∷ 0xA8
    ∷ 0x8D ∷ 0x8D ∷ 0x83 ∷ 0x59 ∷ 0xE1 ∷ 0x42 ∷ 0x74 ∷ 0x3E ∷ 0x10 ∷ 0x26 ∷ 0x75 ∷ 0x67 ∷ 0xC8
    ∷ 0xA4 ∷ 0x7E ∷ 0x1A ∷ 0x93 ∷ 0x93 ∷ 0x64 ∷ 0x46 ∷ 0xCE ∷ 0x02 ∷ 0xC5 ∷ 0x67 ∷ 0xCA ∷ 0x0F
    ∷ 0xDA ∷ 0xDF ∷ 0x7A ∷ 0x59 ∷ 0x84 ∷ 0x42 ∷ 0xFA ∷ 0xCE ∷ 0x16 ∷ 0xB8 ∷ 0xBE ∷ 0x2E ∷ 0xE0
    ∷ 0x43 ∷ 0xDA ∷ 0x32 ∷ 0xC9 ∷ []

abbrev gamma_abc_2 : Bytes
gamma_abc_2 =
    0x09 ∷ 0x0D ∷ 0xAB ∷ 0x3F ∷ 0xBA ∷ 0xCF ∷ 0xF9 ∷ 0x26 ∷ 0x87 ∷ 0x3E ∷ 0x5C ∷ 0x4C ∷ 0x28 ∷ 0x3F
    ∷ 0xA9 ∷ 0x3F ∷ 0xC4 ∷ 0x6D ∷ 0x82 ∷ 0x60 ∷ 0xC6 ∷ 0x8B ∷ 0x6A ∷ 0xFB ∷ 0xFB ∷ 0x75 ∷ 0x60
    ∷ 0xB2 ∷ 0xCE ∷ 0x11 ∷ 0x65 ∷ 0x65 ∷ 0xFB ∷ 0x51 ∷ 0x1A ∷ 0x63 ∷ 0x4A ∷ 0x31 ∷ 0xFD ∷ 0x44
    ∷ 0x3C ∷ 0x54 ∷ 0xDF ∷ 0x1D ∷ 0x84 ∷ 0xCE ∷ 0xF0 ∷ 0x9F ∷ 0x17 ∷ 0x99 ∷ 0x4A ∷ 0xA9 ∷ 0x20
    ∷ 0xED ∷ 0xBA ∷ 0xF4 ∷ 0x81 ∷ 0x4D ∷ 0xD0 ∷ 0xEB ∷ 0xAC ∷ 0x95 ∷ 0x76 ∷ 0x64 ∷ 0x18 ∷ 0xE5
    ∷ 0x8F ∷ 0xF1 ∷ 0x99 ∷ 0xE6 ∷ 0x1E ∷ 0xBF ∷ 0xBC ∷ 0xF7 ∷ 0xDA ∷ 0x1A ∷ 0x90 ∷ 0x30 ∷ 0xD0
    ∷ 0x57 ∷ 0x1E ∷ 0x69 ∷ 0x89 ∷ 0xA7 ∷ 0x5F ∷ 0x6D ∷ 0x99 ∷ 0xC2 ∷ 0x46 ∷ 0x0A ∷ 0x96 ∷ 0x8D
    ∷ 0x9F ∷ 0xC1 ∷ 0xF5 ∷ 0x6A ∷ []

abbrev gamma_abc_3 : Bytes
gamma_abc_3 =
    0x02 ∷ 0xDA ∷ 0x87 ∷ 0xF6 ∷ 0x1F ∷ 0xC4 ∷ 0x12 ∷ 0xF1 ∷ 0xA7 ∷ 0x89 ∷ 0x84 ∷ 0xE3 ∷ 0x52 ∷ 0xAA
    ∷ 0xD5 ∷ 0x8F ∷ 0x3E ∷ 0x2A ∷ 0x07 ∷ 0x71 ∷ 0x16 ∷ 0x39 ∷ 0x07 ∷ 0xDD ∷ 0x7C ∷ 0xCB ∷ 0xA5
    ∷ 0x8C ∷ 0xB6 ∷ 0x7B ∷ 0x61 ∷ 0xEE ∷ 0xB2 ∷ 0x10 ∷ 0xBC ∷ 0xE8 ∷ 0x8A ∷ 0x09 ∷ 0x3D ∷ 0xD4
    ∷ 0xA4 ∷ 0x59 ∷ 0x1A ∷ 0x12 ∷ 0xD0 ∷ 0x00 ∷ 0x79 ∷ 0x08 ∷ 0x06 ∷ 0x8D ∷ 0xF0 ∷ 0xE7 ∷ 0x38
    ∷ 0x93 ∷ 0x1A ∷ 0xD8 ∷ 0xB2 ∷ 0x1C ∷ 0x93 ∷ 0xED ∷ 0x9D ∷ 0xA4 ∷ 0x44 ∷ 0x28 ∷ 0x8C ∷ 0x38
    ∷ 0x11 ∷ 0x8C ∷ 0xA4 ∷ 0xF7 ∷ 0x6F ∷ 0x90 ∷ 0xFA ∷ 0x98 ∷ 0xDA ∷ 0x01 ∷ 0xE9 ∷ 0x73 ∷ 0xC4
    ∷ 0x73 ∷ 0x07 ∷ 0x45 ∷ 0x9B ∷ 0xA1 ∷ 0x31 ∷ 0x50 ∷ 0xC8 ∷ 0x5A ∷ 0xA5 ∷ 0x8A ∷ 0x2F ∷ 0x65
    ∷ 0x17 ∷ 0x2C ∷ 0x07 ∷ 0xD3 ∷ []

abbrev gamma_abc_4 : Bytes
gamma_abc_4 =
    0x15 ∷ 0x08 ∷ 0x7C ∷ 0xEF ∷ 0x4C ∷ 0x19 ∷ 0x7A ∷ 0x70 ∷ 0x65 ∷ 0xE4 ∷ 0xDD ∷ 0x5F ∷ 0xC5 ∷ 0x4B
    ∷ 0xA3 ∷ 0x9E ∷ 0xA1 ∷ 0x1C ∷ 0x23 ∷ 0x53 ∷ 0xB7 ∷ 0xE8 ∷ 0xB9 ∷ 0xE7 ∷ 0xA8 ∷ 0xCA ∷ 0x6A
    ∷ 0xE7 ∷ 0x45 ∷ 0x2E ∷ 0x6A ∷ 0x7A ∷ 0x5E ∷ 0x07 ∷ 0x83 ∷ 0x16 ∷ 0xDE ∷ 0x36 ∷ 0x1F ∷ 0xCB
    ∷ 0xC7 ∷ 0x8F ∷ 0xBF ∷ 0x92 ∷ 0xA7 ∷ 0x8C ∷ 0x1F ∷ 0x9F ∷ 0x18 ∷ 0xF6 ∷ 0xD1 ∷ 0x94 ∷ 0x96
    ∷ 0x5D ∷ 0x4F ∷ 0x6D ∷ 0x57 ∷ 0x15 ∷ 0x50 ∷ 0x9E ∷ 0x19 ∷ 0x7D ∷ 0x89 ∷ 0x96 ∷ 0xF0 ∷ 0x9B
    ∷ 0x77 ∷ 0x1B ∷ 0x1C ∷ 0x25 ∷ 0xB5 ∷ 0x21 ∷ 0x9D ∷ 0x53 ∷ 0xF9 ∷ 0x2B ∷ 0xE5 ∷ 0xCF ∷ 0xC8
    ∷ 0xC5 ∷ 0x7C ∷ 0xA9 ∷ 0xDD ∷ 0x9C ∷ 0xA3 ∷ 0x8D ∷ 0xF9 ∷ 0x8B ∷ 0xE3 ∷ 0x76 ∷ 0xCB ∷ 0x89
    ∷ 0x06 ∷ 0x74 ∷ 0x8D ∷ 0x7D ∷ []

abbrev gamma_abc_5 : Bytes
gamma_abc_5 =
    0x15 ∷ 0x72 ∷ 0x09 ∷ 0xBB ∷ 0x02 ∷ 0x8C ∷ 0x1E ∷ 0x3B ∷ 0x42 ∷ 0xB7 ∷ 0x7F ∷ 0x68 ∷ 0xBD ∷ 0x99
    ∷ 0x26 ∷ 0xC1 ∷ 0x5E ∷ 0x6A ∷ 0xD6 ∷ 0xA4 ∷ 0x1F ∷ 0x79 ∷ 0x9D ∷ 0x7C ∷ 0x50 ∷ 0x9D ∷ 0x02
    ∷ 0xF1 ∷ 0x73 ∷ 0xC0 ∷ 0x9F ∷ 0x70 ∷ 0x0C ∷ 0x02 ∷ 0x2E ∷ 0xE7 ∷ 0xBB ∷ 0xBE ∷ 0xA0 ∷ 0xE5
    ∷ 0x07 ∷ 0x82 ∷ 0xB4 ∷ 0xF8 ∷ 0x93 ∷ 0x19 ∷ 0x2C ∷ 0xFC ∷ 0x19 ∷ 0x92 ∷ 0x14 ∷ 0x98 ∷ 0xDF
    ∷ 0xF3 ∷ 0xF5 ∷ 0x8B ∷ 0x9D ∷ 0xAF ∷ 0xF2 ∷ 0xD1 ∷ 0xC2 ∷ 0xF0 ∷ 0x5A ∷ 0xD6 ∷ 0xB5 ∷ 0xE4
    ∷ 0x37 ∷ 0xC7 ∷ 0x87 ∷ 0xBF ∷ 0x4F ∷ 0xF2 ∷ 0x66 ∷ 0x87 ∷ 0x05 ∷ 0xA1 ∷ 0x3A ∷ 0xE6 ∷ 0x52
    ∷ 0x9A ∷ 0xFB ∷ 0xB4 ∷ 0xF7 ∷ 0xE1 ∷ 0x5F ∷ 0x42 ∷ 0x98 ∷ 0xBE ∷ 0x65 ∷ 0xAA ∷ 0x6C ∷ 0x48
    ∷ 0xD8 ∷ 0xAC ∷ 0x05 ∷ 0x8C ∷ []

abbrev gamma_abc_6 : Bytes
gamma_abc_6 =
    0x13 ∷ 0x82 ∷ 0x8C ∷ 0x86 ∷ 0x20 ∷ 0xA2 ∷ 0x9F ∷ 0xD5 ∷ 0xC6 ∷ 0x81 ∷ 0x28 ∷ 0x6B ∷ 0x46 ∷ 0x13
    ∷ 0xA6 ∷ 0xDA ∷ 0x65 ∷ 0x05 ∷ 0x0E ∷ 0xB8 ∷ 0x5B ∷ 0x1E ∷ 0x2B ∷ 0xB1 ∷ 0x76 ∷ 0xA8 ∷ 0xF4
    ∷ 0x10 ∷ 0x60 ∷ 0x34 ∷ 0xD9 ∷ 0xBD ∷ 0xAB ∷ 0xAC ∷ 0x62 ∷ 0x5D ∷ 0xAB ∷ 0xB9 ∷ 0xCB ∷ 0x19
    ∷ 0xCF ∷ 0xF0 ∷ 0x81 ∷ 0xC7 ∷ 0xB7 ∷ 0x13 ∷ 0xA1 ∷ 0x61 ∷ 0x14 ∷ 0x0B ∷ 0xE6 ∷ 0xC2 ∷ 0x75
    ∷ 0x82 ∷ 0x7A ∷ 0x6C ∷ 0x80 ∷ 0x10 ∷ 0x1E ∷ 0xBF ∷ 0x48 ∷ 0x68 ∷ 0x52 ∷ 0xBE ∷ 0xA2 ∷ 0x02
    ∷ 0x7F ∷ 0xA6 ∷ 0x10 ∷ 0x1F ∷ 0xC4 ∷ 0x07 ∷ 0x46 ∷ 0x0C ∷ 0xA1 ∷ 0xA7 ∷ 0xDD ∷ 0x59 ∷ 0xEC
    ∷ 0xA9 ∷ 0x04 ∷ 0x9B ∷ 0xD1 ∷ 0x2B ∷ 0xD3 ∷ 0xDE ∷ 0x89 ∷ 0x72 ∷ 0xE5 ∷ 0xDA ∷ 0x5B ∷ 0xEE
    ∷ 0x36 ∷ 0x72 ∷ 0xD9 ∷ 0xF9 ∷ []

unfoldable pub embedded_verification_key : VerificationKey
embedded_verification_key = record {
  alpha = alpha_bytes;
  beta = beta_bytes;
  gamma = gamma_bytes;
  delta = delta_bytes;
  gamma_abc =
      gamma_abc_0 ∷ gamma_abc_1 ∷ gamma_abc_2 ∷ gamma_abc_3 ∷ gamma_abc_4 ∷ gamma_abc_5
      ∷ gamma_abc_6 ∷ [];
}
