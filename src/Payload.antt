-- ===== src/Payload.antt =====
-- src/protocol/packet/payloads
pub mod Picture
pub mod Video
pub mod Audio
pub mod Icon
pub mod GroupPicture
pub mod Text
pub mod Typing
pub mod MessageStatus
pub mod GroupLeave
pub mod GroupMembers
pub mod GroupTitle
pub mod GroupSync
pub mod IconClear
pub mod GroupIcon
pub mod Group
pub mod MessageType
pub mod MessagePayload
