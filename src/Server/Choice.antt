-- ===== src/Server/Choice.antt =====
-- Server.cpp: the requests of the choice of the characters, the emoticons and the sign of life.
use isegye_idol_game_server.Common.{ℕ, true, some, if◌then◌else◌}
use isegye_idol_game_server.Types.{CharacterType, pos}
use isegye_idol_game_server.Packet.{change_character, use_emoticon, notification, NotificationType}
use isegye_idol_game_server.World.{World, modify_client, send_packet_in_all_room_clients}
use isegye_idol_game_server.Server.Stage.{Outcome, is_choice_stage, with_room}

-- `cs_sc_changeCharacter`
unfoldable pub request_change_character : ℕ → ℕ → CharacterType → World → Outcome
request_change_character network_id id type w = with_room (w.clients id).room w λ r.
    if is_choice_stage (w.rooms r).cur_room_status_type
    then with_room (w.clients network_id).room w (λ _. some (
        send_packet_in_all_room_clients network_id (change_character id type)
          (modify_client network_id (λ c. record c { character_type = type }) w)))
    else some w

-- `cs_sc_useEmoticon`
unfoldable pub request_use_emoticon : ℕ → ℕ → ℕ → World → Outcome
request_use_emoticon network_id id emoticon_type w =
    with_room (w.clients network_id).room w
      λ _. some (send_packet_in_all_room_clients network_id (use_emoticon id emoticon_type) w)

-- `ENotificationType::ChoiceCharacter`
unfoldable pub request_choice_character : ℕ → World → Outcome
request_choice_character id w = with_room (w.clients id).room w λ r.
    if is_choice_stage (w.rooms r).cur_room_status_type
    then some (
        send_packet_in_all_room_clients id (notification (pos id) NotificationType.choice_character)
          (modify_client id (λ c. record c { is_choice_character = true }) w))
    else some w

-- `ENotificationType::ConnectCheck`, at the time `now`
unfoldable pub connect_check : ℕ → ℕ → World → Outcome
connect_check now id w =
    some (modify_client id (λ c. record c { last_connect_check_packet_time = now }) w)
