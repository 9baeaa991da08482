-- ===== src/Storage/Message.antt =====
-- src/domain/message.h
use neo_nect_desktop.Base.{ℕ, zero, suc, ℤ, pos, negsuc, List}
use neo_nect_desktop.Base.Text.{String}

-- `other` and `below` stand for values of the enum's type without a name, which a cast from a number
-- above the names, or below 0, can give.
pub data MessageStatus : Type 0 where
  sending sent failed seen pending accepted declined : MessageStatus
  other below : ℕ → MessageStatus

-- static_cast<int>(status)
unfoldable pub status_code : MessageStatus → ℤ
status_code sending = pos 0
status_code sent = pos 1
status_code failed = pos 2
status_code seen = pos 3
status_code pending = pos 4
status_code accepted = pos 5
status_code declined = pos 6
status_code (other n) = pos (suc (suc (suc (suc (suc (suc (suc n)))))))
status_code (below n) = negsuc n

-- static_cast<MessageStatus>(n)
abbrev status_named : ℕ → MessageStatus
status_named zero = sending
status_named (suc zero) = sent
status_named (suc (suc zero)) = failed
status_named (suc (suc (suc zero))) = seen
status_named (suc (suc (suc (suc zero)))) = pending
status_named (suc (suc (suc (suc (suc zero))))) = accepted
status_named (suc (suc (suc (suc (suc (suc zero)))))) = declined
status_named (suc (suc (suc (suc (suc (suc (suc n))))))) = other n

unfoldable pub status_of_code : ℤ → MessageStatus
status_of_code (pos n) = status_named n
status_of_code (negsuc n) = below n

pub record Message : Type 0 where
  pub id : String
  pub server_id : ℤ
  pub conversation_id : String
  pub sender_id : String
  pub type : String
  pub text : String
  pub media_url : String
  pub file_name : String
  pub file_size : ℤ
  pub duration : ℤ
  pub waveform : List ℕ
  pub status : MessageStatus
  pub error_text : String
  pub timestamp : ℤ
