-- ===== src/Server/Store/Messages/Conversations.antt =====
-- MessageStore: the key of a conversation of two people.
use socket_to_ciphertext.Prelude.{String, ◌≡◌, str_leb_total, str_leb_antisymm, arith}
use socket_to_ciphertext.Server.Store.Messages.{direct_conversation}

-- Both people of a conversation look it up under one key, whoever of them is named first.
direct_conversation_comm : (a b : String) → direct_conversation a b ≡ direct_conversation b a
unfolding direct_conversation
direct_conversation_comm a b =
    ground (arith, str_leb_total a b, str_leb_total b a, str_leb_antisymm a b)
