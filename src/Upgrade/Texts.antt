-- ===== src/Upgrade/Texts.antt =====
-- The texts of the handshake in src/connection/websocket_ctx.cpp, byte by byte.
use avant.Base.{[], ◌∷◌, Bytes}

-- "sec-websocket-key"
abbrev pub sec_websocket_key_name : Bytes
sec_websocket_key_name =
    115 ∷ 101 ∷ 99 ∷ 45 ∷ 119 ∷ 101 ∷ 98 ∷ 115 ∷ 111 ∷ 99 ∷ 107 ∷ 101 ∷ 116 ∷ 45 ∷ 107 ∷ 101 ∷ 121
    ∷ []

-- "sec-websocket-version"
abbrev pub sec_websocket_version_name : Bytes
sec_websocket_version_name =
    115 ∷ 101 ∷ 99 ∷ 45 ∷ 119 ∷ 101 ∷ 98 ∷ 115 ∷ 111 ∷ 99 ∷ 107 ∷ 101 ∷ 116 ∷ 45 ∷ 118 ∷ 101 ∷ 114
    ∷ 115 ∷ 105 ∷ 111 ∷ 110 ∷ []

-- "13"
abbrev pub supported_version : Bytes
supported_version = 49 ∷ 51 ∷ []

-- "258EAFA5-E914-47DA-95CA-C5AB0DC85B11"
abbrev pub websocket_guid : Bytes
websocket_guid =
    50 ∷ 53 ∷ 56 ∷ 69 ∷ 65 ∷ 70 ∷ 65 ∷ 53 ∷ 45 ∷ 69 ∷ 57 ∷ 49 ∷ 52 ∷ 45 ∷ 52 ∷ 55 ∷ 68 ∷ 65 ∷ 45
    ∷ 57 ∷ 53 ∷ 67 ∷ 65 ∷ 45 ∷ 67 ∷ 53 ∷ 65 ∷ 66 ∷ 48 ∷ 68 ∷ 67 ∷ 56 ∷ 53 ∷ 66 ∷ 49 ∷ 49 ∷ []

-- "HTTP/1.1 101 Switching Protocols\r\nUpgrade: websocket\r\nConnection: Upgrade\r\nSec-WebSocket-Accept: "
abbrev pub accept_response : Bytes
accept_response =
    72 ∷ 84 ∷ 84 ∷ 80 ∷ 47 ∷ 49 ∷ 46 ∷ 49 ∷ 32 ∷ 49 ∷ 48 ∷ 49 ∷ 32 ∷ 83 ∷ 119 ∷ 105 ∷ 116 ∷ 99 ∷ 104
    ∷ 105 ∷ 110 ∷ 103 ∷ 32 ∷ 80 ∷ 114 ∷ 111 ∷ 116 ∷ 111 ∷ 99 ∷ 111 ∷ 108 ∷ 115 ∷ 13 ∷ 10 ∷ 85 ∷ 112
    ∷ 103 ∷ 114 ∷ 97 ∷ 100 ∷ 101 ∷ 58 ∷ 32 ∷ 119 ∷ 101 ∷ 98 ∷ 115 ∷ 111 ∷ 99 ∷ 107 ∷ 101 ∷ 116 ∷ 13
    ∷ 10 ∷ 67 ∷ 111 ∷ 110 ∷ 110 ∷ 101 ∷ 99 ∷ 116 ∷ 105 ∷ 111 ∷ 110 ∷ 58 ∷ 32 ∷ 85 ∷ 112 ∷ 103 ∷ 114
    ∷ 97 ∷ 100 ∷ 101 ∷ 13 ∷ 10 ∷ 83 ∷ 101 ∷ 99 ∷ 45 ∷ 87 ∷ 101 ∷ 98 ∷ 83 ∷ 111 ∷ 99 ∷ 107 ∷ 101
    ∷ 116 ∷ 45 ∷ 65 ∷ 99 ∷ 99 ∷ 101 ∷ 112 ∷ 116 ∷ 58 ∷ 32 ∷ []

-- "\r\n\r\n"
abbrev pub end_of_head : Bytes
end_of_head = 13 ∷ 10 ∷ 13 ∷ 10 ∷ []
