-- ===== src/Sessions.antt =====
-- The settings of sessions and channels (ib/SessionSetting.cpp and the flags of ib/SocketInitiator.cpp).
-- `cast_unsigned` and `cast_int` are boost::lexical_cast; none is an exception of theirs, or an access out
-- of the parts of an address.
pub mod Flags
pub mod Initiator
pub mod Outbound
pub mod Served
pub mod Shared
pub mod Restarted
pub mod Connect
use atp.Common.{
  ℕ, ◌%◌, ◌^◌, Bool, true, false, ◌||◌, ◌&&◌, Option, none, some, List, [], ◌∷◌, ◌++◌,
  if◌then◌else◌, ltb, ◌==◌, ◌>>=◌,
}
use atp.Common.Int.{ℤ, pos, to_size, to_int32}
use atp.Common.Eq.{int_eq}
use atp.Common.Map.{Map, assign}
use atp.Common.Split.{split_from}
use atp.Common.Text.{Str}

-- std::getline: what stands before the delimiter, and the rest of the stream.
unfoldable pub getline : (delim : ℕ) → Str → Str × Str
getline delim [] = ([], [])
getline delim (c ∷ s) =
    let (line, rest) = getline delim s in if c == delim then ([], s) else (c ∷ line, rest)

abbrev pub is_space : ℕ → Bool
is_space c = c == 32 || (ltb 8 c && ltb c 14)

unfoldable pub skip_spaces : Str → Str
skip_spaces [] = []
skip_spaces (c ∷ s) = let rest = skip_spaces s in if is_space c then rest else c ∷ s

unfoldable pub until_space : Str → Str
until_space [] = []
until_space (c ∷ s) = let rest = until_space s in if is_space c then [] else c ∷ rest

-- iss >> word
unfoldable pub read_word : Str → Str
unfolding skip_spaces until_space
read_word s = until_space (skip_spaces s)

pub record SessionSetting : Type 0 where
  pub session_id : ℕ
  pub host : Str
  pub port : ℕ
  pub reactor : Str

-- gatewayParts[0] and gatewayParts[1]
abbrev pub first_two : List Str → Option (Str × Str)
first_two [] = none
first_two (a ∷ []) = none
first_two (a ∷ b ∷ parts) = some (a, b)

module _ (cast_unsigned : Str → Option ℕ) (cast_int : Str → Option ℤ) where
  -- ParseSessionSettingFromString: {session_id}={gateway_ip_port}@{reactor_endpoint}
  unfoldable pub parse_session_setting : Str → Option SessionSetting
  parse_session_setting input = do
    let first = getline b'=' input
    session_id ← cast_unsigned first.0
    let second = getline b'@' first.1
    (host, port_text) ← first_two (split_from b':' [] second.0)
    port ← cast_int port_text
    some (record {
      session_id = session_id;
      host = host;
      port = to_size port % 2 ^ 32;
      reactor = read_word second.1;
    })

  unfoldable pub parse_all : List Str → Option (List SessionSetting)
  parse_all [] = some []
  parse_all (spec ∷ specs) = do
    setting ← parse_session_setting spec
    settings ← parse_all specs
    some (setting ∷ settings)

  -- ParseSessionSettingsFromFlag, on an empty list of settings.
  unfoldable pub parse_session_settings : Str → Option (List SessionSetting)
  parse_session_settings flag = parse_all (split_from b',' [] flag)

-- ParseChannelSettingFromString: {channel_id}={push_endpoint}
unfoldable pub parse_channel_setting : (cast_unsigned : Str → Option ℕ) → Str → Option (ℕ × Str)
unfolding getline read_word
parse_channel_setting cast_unsigned input = do
  let first = getline b'=' input
  channel ← cast_unsigned first.0
  some (channel, read_word first.1)

-- The loop of ParseOutboundChannelMapFromFlag; a channel is an int.
unfoldable pub parse_channels :
    (cast_unsigned : Str → Option ℕ) → List Str → Map ℤ Str → Option (Map ℤ Str)
unfolding parse_channel_setting assign
parse_channels cast_unsigned [] m = some m
parse_channels cast_unsigned (spec ∷ specs) m = do
  (channel, endpoint) ← parse_channel_setting cast_unsigned spec
  parse_channels cast_unsigned specs (assign (to_int32 channel) endpoint m)

unfoldable pub parse_outbound_channel_map :
    (cast_unsigned : Str → Option ℕ) → Str → Map ℤ Str → Option (Map ℤ Str)
unfolding parse_channels split_from
parse_outbound_channel_map cast_unsigned flag m =
    parse_channels cast_unsigned (split_from b',' [] flag) m
