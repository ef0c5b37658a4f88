-- ===== src/ChannelFlow.antt =====
-- The pressure that is displayed for a channel, and its flow state: frontend/src/model/channelFlowState.ts.
pub mod Pressure
pub mod Deriver
mod Tests
